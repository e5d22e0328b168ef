-- ===== src/Redis/Interface.antt =====
-- Redis keys, and the commands with their documented behaviour. Times are milliseconds. The values
-- that the services keep are decimal numbers, so a value is the number that its text spells.
use developer_platform_backe.Prelude.{
  ℕ, ◌+◌, ◌*◌, suc, Bool, true, false, ◌&&◌, Option, none, some, ◌≡◌, ◌==◌, leb, if◌then◌else◌,
  or_default,
}

-- The two key formats: `rl:limit:<org>` and `rl:count:<org>:<window>`.
pub data Key : Type 0 where
  limit_key : ℕ → Key
  count_key : ℕ → ℕ → Key

abbrev pub same_key : Key → Key → Bool
same_key (limit_key a) (limit_key b) = a == b
same_key (limit_key a) (count_key b w) = false
same_key (count_key a v) (limit_key b) = false
same_key (count_key a v) (count_key b w) = a == b && v == w

pub record Entry : Type 0 where
  pub value : ℕ
  pub deadline : Option ℕ

-- A key whose time to live has run out is absent.
abbrev pub is_live : ℕ → Option ℕ → Bool
is_live now none = true
is_live now (some d) = if leb d now then false else true

abbrev pub live : ℕ → Option Entry → Option Entry
live now none = none
live now (some e) = if is_live now e.deadline then some e else none

abbrev pub value_of : Option Entry → Option ℕ
value_of none = none
value_of (some e) = some e.value

abbrev pub deadline_of : Option Entry → Option ℕ
deadline_of none = none
deadline_of (some e) = e.deadline

abbrev pub with_deadline : ℕ → Option Entry → Option Entry
with_deadline d none = none
with_deadline d (some e) = some (record e { deadline = some d })

-- INCR counts from 0 where the key is absent, and keeps its time to live.
abbrev pub bumped : Option Entry → Entry
bumped o = record { value = suc (or_default (value_of o) 0); deadline = deadline_of o }

pub record Redis : Type 1 where
  pub Store : Type 0
  pub entry : Key → Store → Option Entry
  pub get : ℕ → Key → Store → Option ℕ
  pub incr : ℕ → Key → Store → ℕ × Store
  pub expire : ℕ → Key → (seconds : ℕ) → Store → Store
  -- SET key value EX seconds
  pub set_ex : ℕ → Key → (value seconds : ℕ) → Store → Store
  pub del : Key → Store → Store
  pub get_lem : (now : ℕ) (k : Key) (s : Store) → get now k s ≡ value_of (live now (entry k s))
  pub incr_value :
      (now : ℕ) (k : Key) (s : Store) → (incr now k s).0 ≡ (bumped (live now (entry k s))).value
  pub entry-incr :
      (now : ℕ) (j k : Key) (s : Store)
      → entry j (incr now k s).1
        ≡ (if same_key j k then some (bumped (live now (entry k s))) else entry j s)
  pub entry-expire :
      (now : ℕ) (j k : Key) (n : ℕ) (s : Store)
      → entry j (expire now k n s) ≡ (
          if same_key j k then with_deadline (now + n * 1000) (live now (entry k s)) else entry j s)
  pub entry-set_ex :
      (now : ℕ) (j k : Key) (v n : ℕ) (s : Store)
      → entry j (set_ex now k v n s) ≡ (
          if same_key j k
          then some (record { value = v; deadline = some (now + n * 1000) })
          else entry j s)
  pub entry-del :
      (j k : Key) (s : Store) → entry j (del k s) ≡ (if same_key j k then none else entry j s)
