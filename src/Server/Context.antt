-- ===== src/Server/Context.antt =====
-- `ServerContext` of server/src/main.cpp, what stands around one request, and chains of steps.
use encoder_next.Prelude.{
  ℕ, suc, ◌≡◌, refl, Bool, true, false, Option, none, some, List, [], ◌∷◌, ◌++◌, Bytes, codes, Map,
  ℤ, pos, negsuc, decimal, if◌then◌else◌, has_prefix, is_empty, ltb, ◌-◌, ◌^◌, digits_value,
  is_digit, ◌==◌,
}
use encoder_next.Auth.{UserStore}
use encoder_next.Monitor.{Entry, MonitorConfig}
use encoder_next.Monitor.Store.{Users}
use encoder_next.Crypto.OpenSsl.{OpenSsl}
use encoder_next.Crypto.Gost.{Akrypt}
use encoder_next.Crypto.Names.{skip_spaces}

pub record ClientBindingRecord : Type 0 where
  pub allowed : Bool
  pub first_seen_ts : ℤ
  pub last_seen_ts : ℤ
  pub label : Bytes

-- What the audit service is told: `log_event` and `log_alert`, and the entries of the monitor.
pub data Note : Type 0 where
  event : Bytes → Bytes → Bytes → Note
  alert : Bytes → Bytes → Bytes → Note
  monitored : List Entry → Note

-- The users, their file, what the monitor knows of them, the binding of clients, and the files.
pub record ServerContext : Type 0 where
  pub users : UserStore
  pub users_file : Option Bytes
  pub monitor : Users
  pub binding_enabled : Bool
  pub client_bindings : Map ClientBindingRecord
  pub files : Map Bytes
  pub notes : List Note

-- What writing a file comes to: it cannot be opened, or it is left with a part of the bytes.
pub data Written : Type 0 where
  written : Written
  not_opened : Written
  cut_short : Bytes → Written

-- Nothing is written in part.
abbrev pub is_whole : Written → Bool
is_whole written = true
is_whole not_opened = true
is_whole (cut_short part) = false

-- The readings of the clock while a request is served, the bytes behind its header, what
-- `RAND_bytes` gives for each use, and the failures of the file system.
pub record Env : Type 0 where
  pub registered_at : ℤ
  pub checked_at : ℤ
  pub failed_at : ℤ
  pub logged_in_at : ℤ
  pub logged_in_hour : ℕ
  pub rechecked_at : ℤ
  pub worked_at : ℤ
  pub stream : Bytes
  pub rand_key : ℕ → Option Bytes
  pub rand_iv : ℕ → Option Bytes
  pub salt : Option Bytes
  pub key_name : Bytes
  pub file_name : Bytes
  pub key_written : Written
  pub hash_written : Written
  pub save_fails : Bool
  pub rename_fails : Bool

-- What does not change while the server runs: its directories and limits, the build, and the
-- libraries.
pub record Setup : Type 1 where
  pub keys_dir : Bytes
  pub hashes_dir : Bytes
  pub max_file_bytes : ℕ
  pub monitor_config : MonitorConfig
  pub derive : Bytes → Bytes → Option Bytes
  pub native : Bool
  pub ssl : OpenSsl
  pub ak : Akrypt

pub data Outcome {ℓ} (A : Type ℓ) : Type ℓ where
  done : A → ServerContext → Outcome A
  refused : Bytes → ServerContext → Outcome A

abbrev pub Step {ℓ} : Type ℓ → Type ℓ
Step A = ServerContext → Outcome A

abbrev pub pass_on {ℓ κ} : {A : Type ℓ} {B : Type κ} → (A → Step B) → Outcome A → Outcome B
pass_on next (refused message ctx) = refused message ctx
pass_on next (done a ctx) = next a ctx

infixl 5 ◌>>=◌
abbrev pub ◌>>=◌ {ℓ κ} : {A : Type ℓ} {B : Type κ} → Step A → (A → Step B) → Step B
◌>>=◌ step next ctx = pass_on next (step ctx)

infixl 5 ◌>>◌
abbrev pub ◌>>◌ {κ} : {B : Type κ} → Step (Unit {0}) → Step B → Step B
◌>>◌ step next ctx = pass_on (λ _. next) (step ctx)

module _ {ℓ} {A : Type ℓ} where
  abbrev pub answer : A → Step A
  answer a ctx = done a ctx

  -- `send_error` and the return behind it.
  abbrev pub refuse : Bytes → Step A
  refuse message ctx = refused message ctx

  abbrev pub reads : (ServerContext → A) → Step A
  reads f ctx = done (f ctx) ctx

  abbrev pub or_refuse : Option A → Bytes → Step A
  or_refuse none message ctx = refused message ctx
  or_refuse (some a) message ctx = done a ctx

abbrev pub insist : Bool → Bytes → Step (Unit {0})
insist true message ctx = done tt ctx
insist false message ctx = refused message ctx

abbrev pub change : (ServerContext → ServerContext) → Step (Unit {0})
change f ctx = done tt (f ctx)

abbrev pub note : Note → Step (Unit {0})
note n ctx = done tt (record ctx { notes = n ∷ ctx.notes })

-- `std::to_string` of a signed number.
abbrev pub to_string : ℤ → Bytes
to_string (pos n) = decimal n
to_string (negsuc n) = b'-' ∷ decimal (suc n)

unfoldable pub leading_digits : Bytes → Bytes
leading_digits [] = []
leading_digits (c ∷ cs) = let rest = leading_digits cs in if is_digit c then c ∷ rest else []

abbrev in_range : Bytes → Option ℕ
in_range digits =
    if is_empty digits
    then none
    else if ltb (digits_value 0 digits) (2 ^ 64)
    then some (digits_value 0 digits)
    else none

abbrev negated : Option ℕ → Option ℕ
negated none = none
negated (some n) = some (if n == 0 then 0 else 2 ^ 64 - n)

abbrev after_spaces : Bytes → Option ℕ
after_spaces [] = none
after_spaces (c ∷ cs) =
    if c == b'-'
    then negated (in_range (leading_digits cs))
    else if c == b'+'
    then in_range (leading_digits cs)
    else in_range (leading_digits (c ∷ cs))

-- `std::stoull`: white space, a sign, and the digits up to the first other character; `none` is its
-- exception.
unfoldable pub stoull : Bytes → Option ℕ
stoull text = after_spaces (skip_spaces text)

-- A name in a directory; an absolute name stands for itself.
unfoldable pub path_in : Bytes → Bytes → Bytes
path_in dir name = if has_prefix (codes "/") name then name else dir ++ (b'/' ∷ name)

-- What a chain that answers went through.
pub pass_on_inv {ℓ κ} :
    {A : Type ℓ} {B : Type κ} (next : A → Step B) (o : Outcome A) {b : B} {c' : ServerContext}
    → pass_on next o ≡ done b c'
    → (a : A) × (c : ServerContext) × (o ≡ done a c) × (next a c ≡ done b c')
pass_on_inv next (refused message ctx) h = absurd (cc h)
pass_on_inv next (done a ctx) h = (a, ctx, refl, h)

pub or_refuse_inv {ℓ κ} :
    {A : Type ℓ} {B : Type κ} (next : A → Step B) (o : Option A) (message : Bytes)
    (c : ServerContext) {b : B} {c' : ServerContext}
    → pass_on next (or_refuse o message c) ≡ done b c'
    → (a : A) × (o ≡ some a) × (next a c ≡ done b c')
or_refuse_inv next none message c h = absurd (cc h)
or_refuse_inv next (some a) message c h = (a, refl, h)

pub insist_inv {κ} :
    {B : Type κ} (next : Unit {0} → Step B) (t : Bool) (message : Bytes) (c : ServerContext) {b : B}
    {c' : ServerContext}
    → pass_on next (insist t message c) ≡ done b c'
    → (t ≡ true) × (next tt c ≡ done b c')
insist_inv next true message c h = (refl, h)
insist_inv next false message c h = absurd (cc h)

pub insist_last :
    (t : Bool) (message : Bytes) (c c' : ServerContext) (u : Unit {0})
    → insist t message c ≡ done u c'
    → t ≡ true
insist_last true message c c' u h = refl
insist_last false message c c' u h = absurd (cc h)

pub or_refuse_last {ℓ} :
    {A : Type ℓ} (o : Option A) (message : Bytes) (c c' : ServerContext) (a : A)
    → or_refuse o message c ≡ done a c'
    → c ≡ c'
or_refuse_last none message c c' a h = absurd (cc h)
or_refuse_last (some x) message c c' a h = cc h

pub done_inj {ℓ} :
    {A : Type ℓ} (a b : A) (c d : ServerContext) → done a c ≡ done b d → (a ≡ b) × (c ≡ d)
done_inj a b c d h = (cc h, cc h)
