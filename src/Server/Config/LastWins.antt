-- ===== src/Server/Config/LastWins.antt =====
-- What common/src/config.cpp answers for a name that the file sets several times, or not at all.
use encoder_next.Prelude.{
  ◌≡◌, refl, ap, ◌∙◌, inl, inr, Option, none, some, List, [], ◌∷◌, Bytes, bytes_eq, find, find-put,
  getlines, if◌then◌else◌, Bool-cases,
}
use encoder_next.Protocol.{trim}
use encoder_next.Server.Config.{Config, setting_of, store, load_lines, load}

abbrev value_for : Bytes → Option (Bytes × Bytes) → Option Bytes
value_for key none = none
value_for key (some x) = if bytes_eq x.0 key then some x.1 else none

abbrev or_else {ℓ} : {A : Type ℓ} → Option A → Option A → Option A
or_else none later = later
or_else (some a) later = some a

-- The value of the last line that sets the name.
unfoldable last_value : Bytes → List Bytes → Option Bytes
last_value key [] = none
last_value key (line ∷ lines) =
    or_else (last_value key lines) (value_for key (setting_of (trim line)))

or_else_assoc {ℓ} :
    {A : Type ℓ} (a b c : Option A) → or_else a (or_else b c) ≡ or_else (or_else a b) c
or_else_assoc none b c = refl
or_else_assoc (some x) b c = refl

or_else-none {ℓ} : {A : Type ℓ} (a : Option A) → or_else a none ≡ a
or_else-none none = refl
or_else-none (some x) = refl

find-store :
    (key : Bytes) (o : Option (Bytes × Bytes)) (values : Config)
    → find key (store o values) ≡ or_else (value_for key o) (find key values)
find-store key none values = refl
find-store key (some x) values =
    find-put x.0 key x.1 values
    ∙ elim (Bool-cases (bytes_eq x.0 key)) [ inl e ↦ rw e refl | inr e ↦ rw e refl ]

find-load_lines :
    (key : Bytes) (lines : List Bytes) (values : Config)
    → find key (load_lines lines values) ≡ or_else (last_value key lines) (find key values)
unfolding load_lines last_value
find-load_lines key [] values = refl
find-load_lines key (line ∷ lines) values =
    let o = setting_of (trim line) in
    find-load_lines key lines (store o values)
    ∙ ap (or_else (last_value key lines)) (find-store key o values)
    ∙ or_else_assoc (last_value key lines) (value_for key o) (find key values)

-- After a file is loaded, a name has the value of the last line that sets it, and no value if no
-- line does.
find-load : (key text : Bytes) → find key (load (some text)).1 ≡ last_value key (getlines 10 text)
unfolding load find
find-load key text = find-load_lines key (getlines 10 text) [] ∙ or_else-none _
