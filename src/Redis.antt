-- ===== src/Redis.antt =====
-- The Redis server behind internal/platform/redis, which the program does not implement: the commands
-- that its Lua scripts call, with their documented effect on the keys that are alive. A script runs
-- at one instant; `elapse` is the time that passes between scripts.
pub mod Memory
use gopher_agent_platform.Prelude.{
  ℕ, zero, suc, ◌+◌, ◌-◌, ◌≡◌, ◌<◌, Bool, true, false, Option, none, some, if◌then◌else◌, ltb, ◌==◌,
}
use gopher_agent_platform.Text.{Text, text_eq}

-- A string value; INCR keeps a decimal number.
pub data Value : Type 0 where
  str : Text → Value
  num : ℕ → Value

-- A key that is alive: its value, and the milliseconds left where it expires.
pub record Entry : Type 0 where
  pub value : Value
  pub ttl : Option ℕ

-- The number of a key: 0 where it is absent.
abbrev pub counted : Option Entry → ℕ
counted none = 0
counted (some e) = elim e.value [ str t ↦ 0 | num n ↦ n ]

abbrev pub ttl_of : Option Entry → Option ℕ
ttl_of none = none
ttl_of (some e) = e.ttl

abbrev pub with_ttl : ℕ → Option Entry → Option Entry
with_ttl t none = none
with_ttl zero (some e) = none
with_ttl (suc t) (some e) = some (record e { ttl = some (suc t) })

abbrev pub without_ttl : Option Entry → Option Entry
without_ttl none = none
without_ttl (some e) = some (record e { ttl = none })

-- A key is alive while it has time left.
abbrev pub aged : ℕ → Option Entry → Option Entry
aged d none = none
aged d (some e) = elim e.ttl [
  | none ↦ some e
  | some t ↦ if ltb d t then some (record e { ttl = some (t - d) }) else none
]

-- The reply of PTTL: -2, -1, or the milliseconds left.
pub data Pttl : Type 0 where
  missing persistent : Pttl
  left : ℕ → Pttl

abbrev pub pttl_of : Option Entry → Pttl
pttl_of none = missing
pttl_of (some e) = elim e.ttl [ none ↦ persistent | some t ↦ left t ]

pub record Redis : Type 1 where
  pub State : Type 0
  pub entry : State → Text → Option Entry
  pub set_px : State → Text → Text → ℕ → State
  pub set : State → Text → Text → State
  pub persist : State → Text → State
  pub del : State → Text → State
  pub incr : State → Text → State
  pub pexpire : State → Text → ℕ → State
  pub elapse : State → ℕ → State
  pub entry-set_px :
      (s : State) (k v : Text) (t : ℕ) (j : Text)
      → 0 < t
      → entry (set_px s k v t) j
        ≡ (if text_eq k j then some (record { value = str v; ttl = some t }) else entry s j)
  -- Without a time to live.
  pub entry-set :
      (s : State) (k v j : Text)
      → entry (set s k v) j
        ≡ (if text_eq k j then some (record { value = str v; ttl = none }) else entry s j)
  pub entry-persist :
      (s : State) (k j : Text)
      → entry (persist s k) j ≡ (if text_eq k j then without_ttl (entry s k) else entry s j)
  pub entry-del :
      (s : State) (k j : Text) → entry (del s k) j ≡ (if text_eq k j then none else entry s j)
  pub entry-incr :
      (s : State) (k j : Text)
      → entry (incr s k) j ≡ (
          if text_eq k j
          then some (record { value = num (counted (entry s k) + 1); ttl = ttl_of (entry s k) })
          else entry s j)
  -- A time of 0 deletes the key.
  pub entry-pexpire :
      (s : State) (k : Text) (t : ℕ) (j : Text)
      → entry (pexpire s k t) j ≡ (if text_eq k j then with_ttl t (entry s k) else entry s j)
  pub entry-elapse : (s : State) (d : ℕ) (j : Text) → entry (elapse s d) j ≡ aged d (entry s j)
