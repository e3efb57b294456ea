-- ===== src/Server/Lists/Queries.antt =====
-- The texts of the queries that only read: server/sql/database_operations.rs, user_operations.rs and
-- database_privilege_operations.rs.
use muscl.Prelude.{ℕ, Bool, if◌then◌else◌, [], ◌++◌, map}
use muscl.Prelude.Text.{Text, codes}
use muscl.Prelude.Words.{join}
use muscl.Prelude.Decimal.{decimal}
use muscl.Privileges.Row.{database_privilege_fields}
use muscl.Server.Sql.{quote_identifier}

abbrev max_show_db_related_items : ℕ
max_show_db_related_items = 5

abbrev max_show_user_related_items : ℕ
max_show_user_related_items = 5

unfoldable pub complete_database_name_query : Text
complete_database_name_query =
    codes "\n          SELECT CAST(`SCHEMA_NAME` AS CHAR(64)) AS `database`\n"
    ++ codes "          FROM `information_schema`.`SCHEMATA`\n"
    ++ codes
        "          WHERE `SCHEMA_NAME` NOT IN ('information_schema', 'performance_schema', 'mysql', 'sys')\n"
    ++ codes "            AND `SCHEMA_NAME` REGEXP ?\n            AND `SCHEMA_NAME` LIKE ?\n"
    ++ codes "        "

unfoldable pub list_database_query : Bool → Text
unfolding decimal
list_database_query include_all_tables_and_users =
    let limit_clause =
      if include_all_tables_and_users
      then []
      else codes " LIMIT " ++ decimal max_show_db_related_items in
    codes "\n            SELECT\n"
    ++ codes "                CAST(s.SCHEMA_NAME AS CHAR(64)) AS `database`,\n"
    ++ codes "                t.tables,\n"
    ++ codes "                CAST(COALESCE(sz.table_count, 0) AS UNSIGNED) AS table_count,\n"
    ++ codes "                u.users,\n"
    ++ codes "                CAST(COALESCE(uc.user_count, 0) AS UNSIGNED) AS user_count,\n"
    ++ codes "                s.DEFAULT_COLLATION_NAME AS `collation`,\n"
    ++ codes "                s.DEFAULT_CHARACTER_SET_NAME AS `character_set`,\n"
    ++ codes "                CAST(COALESCE(sz.size_bytes, 0) AS UNSIGNED) AS size_bytes\n"
    ++ codes "            FROM information_schema.SCHEMATA s\n\n            LEFT JOIN (\n"
    ++ codes "                SELECT\n                    x.TABLE_SCHEMA,\n"
    ++ codes
        "                    GROUP_CONCAT(x.TABLE_NAME ORDER BY x.TABLE_NAME SEPARATOR ',') AS tables\n"
    ++ codes "                FROM (\n                    SELECT\n"
    ++ codes "                        TABLE_SCHEMA,\n                        TABLE_NAME\n"
    ++ codes "                    FROM information_schema.TABLES\n"
    ++ codes "                    WHERE TABLE_SCHEMA = ?\n"
    ++ codes "                    ORDER BY TABLE_NAME"
    ++ limit_clause
    ++ codes "\n                ) x\n                GROUP BY x.TABLE_SCHEMA\n            ) t\n"
    ++ codes "                ON t.TABLE_SCHEMA = s.SCHEMA_NAME\n\n            LEFT JOIN (\n"
    ++ codes "                SELECT\n                    x.DB,\n"
    ++ codes "                    GROUP_CONCAT(x.User ORDER BY x.User SEPARATOR ',') AS users\n"
    ++ codes "                FROM (\n                    SELECT DISTINCT\n"
    ++ codes "                        DB,\n                        User\n"
    ++ codes "                    FROM mysql.db\n                    WHERE DB = ?\n"
    ++ codes "                    ORDER BY User"
    ++ limit_clause
    ++ codes "\n                ) x\n                GROUP BY x.DB\n            ) u\n"
    ++ codes "                ON u.DB = s.SCHEMA_NAME\n\n            LEFT JOIN (\n"
    ++ codes "                SELECT\n                    TABLE_SCHEMA,\n"
    ++ codes "                    SUM(DATA_LENGTH + INDEX_LENGTH) AS size_bytes,\n"
    ++ codes "                    COUNT(*) AS table_count\n"
    ++ codes "                FROM information_schema.TABLES\n"
    ++ codes "                WHERE TABLE_SCHEMA = ?\n                GROUP BY TABLE_SCHEMA\n"
    ++ codes "            ) sz\n                ON sz.TABLE_SCHEMA = s.SCHEMA_NAME\n\n"
    ++ codes "            LEFT JOIN (\n                SELECT\n                    DB,\n"
    ++ codes "                    COUNT(DISTINCT User) AS user_count\n"
    ++ codes "                FROM mysql.db\n                WHERE DB = ?\n"
    ++ codes "                GROUP BY DB\n            ) uc\n"
    ++ codes "                ON uc.DB = s.SCHEMA_NAME\n\n"
    ++ codes "            WHERE s.SCHEMA_NAME REGEXP ?\n"
    ++ codes "            AND s.SCHEMA_NAME NOT IN (\n                'information_schema',\n"
    ++ codes "                'performance_schema',\n                'mysql',\n"
    ++ codes "                'sys'\n            )\n        "

unfoldable pub list_all_databases_for_user_query : Bool → Text
unfolding decimal
list_all_databases_for_user_query include_all_tables_and_users =
    let row_limit_clause =
      if include_all_tables_and_users
      then []
      else codes "WHERE row_num <= " ++ decimal max_show_db_related_items in
    codes "\n            SELECT\n"
    ++ codes "                CAST(s.SCHEMA_NAME AS CHAR(64)) AS `database`,\n"
    ++ codes "                t.tables,\n"
    ++ codes "                CAST(COALESCE(sz.table_count, 0) AS UNSIGNED) AS table_count,\n"
    ++ codes "                u.users,\n"
    ++ codes "                CAST(COALESCE(uc.user_count, 0) AS UNSIGNED) AS user_count,\n"
    ++ codes "                s.DEFAULT_COLLATION_NAME AS `collation`,\n"
    ++ codes "                s.DEFAULT_CHARACTER_SET_NAME AS `character_set`,\n"
    ++ codes "                CAST(COALESCE(sz.size_bytes, 0) AS UNSIGNED) AS size_bytes\n"
    ++ codes "            FROM information_schema.SCHEMATA s\n\n            LEFT JOIN (\n"
    ++ codes "                SELECT\n                    x.TABLE_SCHEMA,\n"
    ++ codes
        "                    GROUP_CONCAT(x.TABLE_NAME ORDER BY x.TABLE_NAME SEPARATOR ',') AS tables\n"
    ++ codes "                FROM (\n                    SELECT\n"
    ++ codes "                        TABLE_SCHEMA,\n                        TABLE_NAME,\n"
    ++ codes
        "                        ROW_NUMBER() OVER (PARTITION BY TABLE_SCHEMA ORDER BY TABLE_NAME) AS row_num\n"
    ++ codes "                    FROM information_schema.TABLES\n"
    ++ codes "                    WHERE TABLE_SCHEMA REGEXP ?\n                ) x\n"
    ++ codes "                "
    ++ row_limit_clause
    ++ codes "\n                GROUP BY x.TABLE_SCHEMA\n            ) t\n"
    ++ codes "                ON t.TABLE_SCHEMA = s.SCHEMA_NAME\n\n            LEFT JOIN (\n"
    ++ codes "                SELECT\n                    x.DB,\n"
    ++ codes "                    GROUP_CONCAT(x.User ORDER BY x.User SEPARATOR ',') AS users\n"
    ++ codes "                FROM (\n                    SELECT\n                        DB,\n"
    ++ codes "                        User,\n"
    ++ codes
        "                        ROW_NUMBER() OVER (PARTITION BY DB ORDER BY User) AS row_num\n"
    ++ codes "                    FROM (\n                        SELECT DISTINCT DB, User\n"
    ++ codes "                        FROM mysql.db\n"
    ++ codes "                        WHERE DB REGEXP ?\n                    ) d\n"
    ++ codes "                ) x\n                "
    ++ row_limit_clause
    ++ codes "\n                GROUP BY x.DB\n            ) u\n"
    ++ codes "                ON u.DB = s.SCHEMA_NAME\n\n            LEFT JOIN (\n"
    ++ codes "                SELECT\n                    TABLE_SCHEMA,\n"
    ++ codes "                    SUM(DATA_LENGTH + INDEX_LENGTH) AS size_bytes,\n"
    ++ codes "                    COUNT(*) AS table_count\n"
    ++ codes "                FROM information_schema.TABLES\n"
    ++ codes "                WHERE TABLE_SCHEMA REGEXP ?\n"
    ++ codes "                GROUP BY TABLE_SCHEMA\n            ) sz\n"
    ++ codes "                ON sz.TABLE_SCHEMA = s.SCHEMA_NAME\n\n            LEFT JOIN (\n"
    ++ codes "                SELECT\n                    DB,\n"
    ++ codes "                    COUNT(DISTINCT User) AS user_count\n"
    ++ codes "                FROM mysql.db\n                WHERE DB REGEXP ?\n"
    ++ codes "                GROUP BY DB\n            ) uc\n"
    ++ codes "                ON uc.DB = s.SCHEMA_NAME\n\n"
    ++ codes "            WHERE s.SCHEMA_NAME REGEXP ?\n"
    ++ codes "            AND s.SCHEMA_NAME NOT IN (\n                'information_schema',\n"
    ++ codes "                'performance_schema',\n                'mysql',\n"
    ++ codes "                'sys'\n            )\n\n            ORDER BY s.SCHEMA_NAME\n"
    ++ codes "        "

unfoldable pub complete_user_name_query : Text
complete_user_name_query =
    codes "\n          SELECT `User` AS `user`\n          FROM `mysql`.`user`\n"
    ++ codes "          WHERE `User` REGEXP ?\n            AND `User` LIKE ?\n"
    ++ codes "            AND `Host` = '%'\n        "

unfoldable pub db_user_select_statement_mariadb : Text
db_user_select_statement_mariadb =
    codes "\nSELECT\n  `user`.`User`,\n  `user`.`Host`,\n"
    ++ codes
        "  `user`.`Password` != '' OR `user`.`authentication_string` != '' AS `has_password`,\n"
    ++ codes "  COALESCE(\n    JSON_EXTRACT(`global_priv`.`priv`, \"$.account_locked\"),\n"
    ++ codes "    'false'\n  ) != 'false' AS `account_locked`\nFROM `user`\n"
    ++ codes "JOIN `global_priv` ON\n  `user`.`User` = `global_priv`.`User`\n"
    ++ codes "  AND `user`.`Host` = `global_priv`.`Host`\n"

unfoldable pub db_user_select_statement_mysql : Text
db_user_select_statement_mysql =
    codes "\nSELECT\n  `user`.`User`,\n  `user`.`Host`,\n"
    ++ codes "  `user`.`authentication_string` != '' AS `has_password`,\n"
    ++ codes "  `user`.`account_locked` = 'Y' AS `account_locked`\nFROM `user`\n"

abbrev pub db_user_select_statement : Bool → Text
db_user_select_statement db_is_mariadb =
    if db_is_mariadb then db_user_select_statement_mariadb else db_user_select_statement_mysql

unfoldable pub user_databases_query : Bool → Text
unfolding decimal join
user_databases_query include_all_databases =
    let limit_clause =
      if include_all_databases
      then []
      else codes " LIMIT " ++ decimal max_show_user_related_items in
    let is_yes = λ (field : Text). codes "`" ++ (field ++ codes "` = 'Y'") in
    codes "SELECT\n    `Db` AS `database`,\n"
    ++ codes "    CAST(COUNT(*) OVER() AS UNSIGNED) AS `database_count`\nFROM `db`\n"
    ++ codes "WHERE `User` = ?  AND `Host` = '%' AND ("
    ++ join (codes " OR ") (map is_yes database_privilege_fields)
    ++ codes ")\nORDER BY `Db`"
    ++ limit_clause
    ++ codes "\n"

unfoldable pub get_all_db_privs_query : Text
unfolding join
get_all_db_privs_query =
    codes "SELECT "
    ++ join (codes ",") (map quote_identifier database_privilege_fields)
    ++ codes " FROM `db` WHERE `db` IN\n"
    ++ codes "(SELECT DISTINCT CAST(`SCHEMA_NAME` AS CHAR(64)) AS `database`\n"
    ++ codes "  FROM `information_schema`.`SCHEMATA`\n"
    ++ codes
        "  WHERE `SCHEMA_NAME` NOT IN ('information_schema', 'performance_schema', 'mysql', 'sys')\n"
    ++ codes "    AND `SCHEMA_NAME` REGEXP ?)\n"
