-- ===== src/Denylist/Engine.antt =====
-- An engine that reads an expression and searches for its parts. It shows that what
-- Denylist/Regex.antt assumes of the crate `regex` can hold.
use muscl.Prelude.{◌≡◌, refl, ap, sym, ◌∙◌, Bool, Option, none, some, List, [], ◌∷◌, if◌then◌else◌}
use muscl.Prelude.Text.{Text}
use muscl.Denylist.{Regexes}
use muscl.Denylist.Regex.{Part, backslash, is_meta, read_expression, search, FollowsSyntax}

abbrev searched : Option (List Part) → Option (Text → Bool)
searched none = none
searched (some ps) = some (search ps)

abbrev pub engine : Regexes
engine = record {
  escape = λ c. if is_meta c then backslash ∷ c ∷ [] else c ∷ [];
  compile = λ t. searched (read_expression t);
}

pub engine-FollowsSyntax : FollowsSyntax engine
engine-FollowsSyntax = record { escapes = λ c. refl; finds = found }
  where
    found :
        (t : Text) (ps : List Part) (r : Text → Bool)
        → read_expression t ≡ some ps
        → engine.compile t ≡ some r
        → (s : Text) → r s ≡ search ps s
    found t ps r e h s = let same : some (search ps) ≡ some r = sym (ap searched e) ∙ h in cc
