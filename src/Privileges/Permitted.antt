-- ===== src/Privileges/Permitted.antt =====
-- When `drop` returns.
use smartmeter_gateway.Prelude.{ℕ, true, false, ◌≡◌, ◌≢◌, refl, some, Bytes}
use smartmeter_gateway.Privileges.{
  Passwd, Os, Outcome, returned, is_empty, find_user, target_gid, verify, change_uid, change_gid,
  change_ids, change_to, drop_to, drop,
}
use smartmeter_gateway.Privileges.Dropped.{all, Documented, euid-same}

-- The system lets root make the three calls, and refuses `setuid(0)` to a process without an id of
-- root.
pub record Permits (os : Os) (doc : Documented os) : Type 0 where
  pub initgroups_permitted :
      (name : Bytes) (g : ℕ) (p : os.Process) → os.geteuid p ≡ 0 → (os.initgroups name g p).0 ≡ true
  pub setgid_permitted : (g : ℕ) (p : os.Process) → os.geteuid p ≡ 0 → (os.setgid g p).0 ≡ true
  pub setuid_permitted : (u : ℕ) (p : os.Process) → os.geteuid p ≡ 0 → (os.setuid u p).0 ≡ true
  pub setuid_denied :
      (u : ℕ) (p : os.Process) → doc.uids p ≡ all u → u ≢ 0 → (os.setuid 0 p).0 ≡ false

module _ (os : Os) (doc : Documented os) (permits : Permits os doc) where
  open os use {Process}

  abbrev DoesReturn : Outcome Process → Type 0
  DoesReturn o = (p : Process) × (o ≡ returned p)

  verify_returns : (u : ℕ) (p : Process) → doc.uids p ≡ all u → u ≢ 0 → DoesReturn (verify os p)
  unfolding verify
  verify_returns u p e n = rw (permits.setuid_denied u p e n) (_, refl)

  change_uid_returns :
      (pw : Passwd) (p : Process) → os.geteuid p ≡ 0 → pw.uid ≢ 0 → DoesReturn (change_uid os pw p)
  unfolding change_uid
  change_uid_returns pw p root n =
      let done = permits.setuid_permitted pw.uid p root in
      rw done (verify_returns pw.uid _ (doc.setuid_root pw.uid p root done).0 n)

  change_gid_returns :
      (gid : ℕ) (pw : Passwd) (p : Process)
      → os.geteuid p ≡ 0
      → pw.uid ≢ 0
      → DoesReturn (change_gid os gid pw p)
  unfolding change_gid
  change_gid_returns gid pw p root n =
      let done = permits.setgid_permitted gid p root in
      let (g, u, s) = doc.setgid_root gid p root done in
      rw done (change_uid_returns pw _ (euid-same os doc p _ u root) n)

  change_ids_returns :
      (gid : ℕ) (pw : Passwd) (p : Process)
      → os.geteuid p ≡ 0
      → pw.uid ≢ 0
      → DoesReturn (change_ids os gid pw p)
  unfolding change_ids
  change_ids_returns gid pw p root n =
      let done = permits.initgroups_permitted pw.name gid p root in
      let (s, u, g) = doc.initgroups_root pw.name gid p root done in
      rw done (change_gid_returns gid pw _ (euid-same os doc p _ u root) n)

  -- x
  pub drop_returns :
      (user group : Bytes) (pw : Passwd) (gid : ℕ) (p : Process)
      → os.geteuid p ≡ 0
      → is_empty user ≡ false
      → find_user os user ≡ some pw
      → target_gid os group pw ≡ some gid
      → pw.uid ≢ 0
      → (p' : Process) × (drop os user group p ≡ returned p')
  unfolding drop drop_to change_to
  drop_returns user group pw gid p root e u g n =
      rw (e, u) (rw g (change_ids_returns gid pw p root n))
