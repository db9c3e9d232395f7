-- ===== src/Privileges/Tests.antt =====
-- A system with two users on concrete data, and the theorems at inputs that meet their hypotheses.
use smartmeter_gateway.Prelude.{
  ℕ, Bool, true, false, ◌||◌, ◌==◌, ◌≡◌, refl, sym, subst, ◌∙◌, ◌≢◌, none, some, if◌then◌else◌,
  Bytes, bytes_eq, codes, arith, [],
}
use smartmeter_gateway.Privileges.{
  Passwd, Group, Os, returned, drop, find_user, target_gid, find_group, by_id, or_else, verify,
  change_uid, change_gid, change_ids, change_to, drop_to,
}
use smartmeter_gateway.Privileges.Strtol.{c_str, numeric_id, number, signed}
use smartmeter_gateway.Privileges.Dropped.{Ids, all, Documented}
use smartmeter_gateway.Privileges.Permitted.{Permits}

abbrev pub meter : Passwd
meter = record { name = codes "meter"; uid = 1000; gid = 1000 }

abbrev pub dialout : Group
dialout = record { name = codes "dialout"; gid = 20 }

abbrev pub Process : Type 0
Process = Ids × Ids × (Bytes × ℕ)

-- What root may do; another process may set its own ids again.
abbrev pub set_ids : Bool → ℕ → Ids → Ids
set_ids true n i = all n
set_ids false n i = record i { effective = n }

abbrev pub may : ℕ → ℕ → Ids → Bool
may euid n i = euid == 0 || (n == i.real || n == i.saved)

abbrev pub os : Os
os = record {
  Process = Process;
  geteuid = λ p. p.0.effective;
  getegid = λ p. p.1.effective;
  getpwnam = λ name. if bytes_eq name meter.name then some meter else none;
  getpwuid = λ uid. if uid == 1000 then some meter else none;
  getgrnam = λ name. if bytes_eq name dialout.name then some dialout else none;
  getgrgid = λ gid. if gid == 20 then some dialout else none;
  initgroups =
      λ name gid p. if p.0.effective == 0 then (true, (p.0, p.1, (name, gid))) else (false, p);
  setgid = λ gid p.
      if may p.0.effective gid p.1
      then (true, (p.0, set_ids (p.0.effective == 0) gid p.1, p.2))
      else (false, p);
  setuid = λ uid p.
      if may p.0.effective uid p.0
      then (true, (set_ids (p.0.effective == 0) uid p.0, p.1, p.2))
      else (false, p);
}

abbrev pub root : Process
root = (all 0, all 0, ([], 0))

abbrev pub attempt : Bool → Process → Process → Bool × Process
attempt b x p = if b then (true, x) else (false, p)

pub attempt_same : (b : Bool) (x p : Process) → (attempt b x p).0 ≡ false → (attempt b x p).1 ≡ p
attempt_same true x p e = absurd (ground arith)
attempt_same false x p e = refl

attempt_done : (b : Bool) (x p : Process) → (attempt b x p).0 ≡ b
attempt_done true x p = refl
attempt_done false x p = refl

may_denied : (u : ℕ) (i : Ids) → i ≡ all u → u ≢ 0 → may i.effective 0 i ≡ false
may_denied u i e n = subst (λ (j : Ids). may j.effective 0 j ≡ false) (sym e) (ground arith)

pub may_real : (u : ℕ) (p : Process) → p.0.real ≡ u → (os.setuid u p).0 ≡ true
may_real u p e = ground arith

abbrev pub documented : Documented os
documented = record {
  uids = λ p. p.0;
  gids = λ p. p.1;
  groups = λ p. p.2;
  geteuid_is = λ p. refl;
  getegid_is = λ p. refl;
  setuid_failed = λ u p e. attempt_same (may p.0.effective u p.0) _ p e;
  setuid_real = may_real;
  setuid_root = λ u p e t. rw e (refl, refl, refl);
  setgid_root = λ g p e t. rw e (refl, refl, refl);
  initgroups_root = λ name g p e t. rw e (refl, refl, refl);
}

pub permits : Permits os documented
permits = record {
  initgroups_permitted = λ name g p e. rw e refl;
  setgid_permitted = λ g p e. rw e refl;
  setuid_permitted = λ u p e. rw e refl;
  setuid_denied = λ u p e n. attempt_done _ _ p ∙ may_denied u p.0 e n;
}

-- The user by number, the group by name.
abbrev pub dropped : Process
dropped = (all 1000, all 20, (codes "meter", 20))

runs_drop : drop os (codes "1000") (codes "dialout") root ≡ returned dropped
unfolding drop drop_to change_to change_ids change_gid change_uid verify target_gid find_user
    find_group or_else by_id c_str numeric_id number signed bytes_eq
runs_drop = refl
