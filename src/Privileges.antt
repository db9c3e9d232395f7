-- ===== src/Privileges.antt =====
-- include/privileges.h: the change from root to an unprivileged user. The system calls and the
-- databases of users and groups are a parameter; a call that changes the process answers whether it
-- succeeds and the process behind it.
pub mod Strtol
pub mod Dropped
pub mod Permitted
pub mod Tests
use smartmeter_gateway.Prelude.{
  ℕ, ◌%◌, ◌^◌, Bool, true, false, not, List, [], ◌∷◌, Option, none, some, ◌==◌, if◌then◌else◌,
  Bytes,
}
use Strtol.{c_str, numeric_id}

-- `struct passwd` and `struct group`, as far as the source reads them.
pub record Passwd : Type 0 where
  pub name : Bytes
  pub uid : ℕ
  pub gid : ℕ

pub record Group : Type 0 where
  pub name : Bytes
  pub gid : ℕ

pub record Os : Type 1 where
  pub Process : Type 0
  pub geteuid : Process → ℕ
  pub getegid : Process → ℕ
  pub getpwnam : Bytes → Option Passwd
  pub getpwuid : ℕ → Option Passwd
  pub getgrnam : Bytes → Option Group
  pub getgrgid : ℕ → Option Group
  pub initgroups : Bytes → ℕ → Process → Bool × Process
  pub setgid : ℕ → Process → Bool × Process
  pub setuid : ℕ → Process → Bool × Process

-- The exceptions of `drop`.
pub data Failure : Type 0 where
  no_user unknown_user unknown_group groups_failed gid_failed uid_failed not_permanent : Failure

-- A call returns or throws, and leaves the process behind it.
pub data Outcome (P : Type 0) : Type 0 where
  returned : P → Outcome P
  threw : Failure → P → Outcome P

-- `static_cast<uid_t>`.
abbrev pub to_id : ℕ → ℕ
to_id n = n % 2 ^ 32

abbrev pub is_empty : Bytes → Bool
is_empty [] = true
is_empty (c ∷ s) = false

module _ (os : Os) where
  open os use {Process}

  unfoldable pub is_root : Process → Bool
  is_root p = os.geteuid p == 0

  -- Their exception is none.
  unfoldable pub get_current_user : Process → Option Bytes
  get_current_user p = elim (os.getpwuid (os.geteuid p)) [ none ↦ none | some pw ↦ some pw.name ]

  unfoldable pub get_current_group : Process → Option Bytes
  get_current_group p = elim (os.getgrgid (os.getegid p)) [ none ↦ none | some gr ↦ some gr.name ]

  -- The second look-up, by a numeric id.
  unfoldable pub by_id {ℓ} : {A : Type ℓ} → (ℕ → Option A) → Option ℕ → Option A
  by_id look none = none
  by_id look (some n) = look (to_id n)

  unfoldable pub or_else {ℓ} : {A : Type ℓ} → Option A → Option A → Option A
  or_else none second = second
  or_else (some a) second = some a

  unfoldable pub find_user : Bytes → Option Passwd
  find_user user = or_else (os.getpwnam (c_str user)) (by_id os.getpwuid (numeric_id (c_str user)))

  unfoldable pub find_group : Bytes → Option Group
  find_group group =
      or_else (os.getgrnam (c_str group)) (by_id os.getgrgid (numeric_id (c_str group)))

  -- The target group: that of the user, unless one is named.
  unfoldable pub target_gid : Bytes → Passwd → Option ℕ
  target_gid group pw =
      if is_empty group
      then some pw.gid
      else elim (find_group group) [ none ↦ none | some gr ↦ some gr.gid ]

  -- The calls that change the process, in their order; each is the rest of `drop` from there.
  unfoldable pub verify : Process → Outcome Process
  verify p =
      let (regained, p') = os.setuid 0 p in if regained then threw not_permanent p' else returned p'

  unfoldable pub change_uid : Passwd → Process → Outcome Process
  change_uid pw p =
      let (ok, p') = os.setuid pw.uid p in if ok then verify p' else threw uid_failed p'

  unfoldable pub change_gid : ℕ → Passwd → Process → Outcome Process
  change_gid gid pw p =
      let (ok, p') = os.setgid gid p in if ok then change_uid pw p' else threw gid_failed p'

  unfoldable pub change_ids : ℕ → Passwd → Process → Outcome Process
  change_ids gid pw p =
      let (ok, p') = os.initgroups pw.name gid p in
      if ok then change_gid gid pw p' else threw groups_failed p'

  unfoldable pub change_to : Option ℕ → Passwd → Process → Outcome Process
  change_to none pw p = threw unknown_group p
  change_to (some gid) pw p = change_ids gid pw p

  unfoldable pub drop_to : Bytes → Option Passwd → Process → Outcome Process
  drop_to group none p = threw unknown_user p
  drop_to group (some pw) p = change_to (target_gid group pw) pw p

  unfoldable pub drop : Bytes → Bytes → Process → Outcome Process
  drop user group p = if is_empty user then threw no_user p else drop_to group (find_user user) p
