-- ===== src/Privileges/Dropped.antt =====
-- What a process is behind a `drop` that returns, from the documented behaviour of the system calls.
use smartmeter_gateway.Prelude.{
  ℕ, true, false, ◌≡◌, ◌≢◌, refl, ap, sym, arith, ◌∙◌, subst, Option, none, some, Bytes, Bool-cases,
  inl, inr,
}
use smartmeter_gateway.Privileges.{
  Passwd, Os, Outcome, returned, threw, is_empty, find_user, target_gid, verify, change_uid,
  change_gid, change_ids, change_to, drop_to, drop,
}

-- The ids that a process has as real, effective and saved ones.
pub record Ids : Type 0 where
  pub real : ℕ
  pub effective : ℕ
  pub saved : ℕ

abbrev pub all : ℕ → Ids
all n = record { real = n; effective = n; saved = n }

-- setuid(2), setgid(2) and initgroups(3). `groups` is the user and group whose list of
-- supplementary groups was set last.
pub record Documented (os : Os) : Type 0 where
  pub uids : os.Process → Ids
  pub gids : os.Process → Ids
  pub groups : os.Process → Bytes × ℕ
  pub geteuid_is : (p : os.Process) → os.geteuid p ≡ (uids p).effective
  pub getegid_is : (p : os.Process) → os.getegid p ≡ (gids p).effective
  pub setuid_failed : (u : ℕ) (p : os.Process) → (os.setuid u p).0 ≡ false → (os.setuid u p).1 ≡ p
  pub setuid_real : (u : ℕ) (p : os.Process) → (uids p).real ≡ u → (os.setuid u p).0 ≡ true
  pub setuid_root :
      (u : ℕ) (p : os.Process)
      → os.geteuid p ≡ 0
      → (os.setuid u p).0 ≡ true
      → (uids (os.setuid u p).1 ≡ all u)
        × (gids (os.setuid u p).1 ≡ gids p)
        × (groups (os.setuid u p).1 ≡ groups p)
  pub setgid_root :
      (g : ℕ) (p : os.Process)
      → os.geteuid p ≡ 0
      → (os.setgid g p).0 ≡ true
      → (gids (os.setgid g p).1 ≡ all g)
        × (uids (os.setgid g p).1 ≡ uids p)
        × (groups (os.setgid g p).1 ≡ groups p)
  pub initgroups_root :
      (name : Bytes) (g : ℕ) (p : os.Process)
      → os.geteuid p ≡ 0
      → (os.initgroups name g p).0 ≡ true
      → (groups (os.initgroups name g p).1 ≡ (name, g))
        × (uids (os.initgroups name g p).1 ≡ uids p)
        × (gids (os.initgroups name g p).1 ≡ gids p)

-- What holds of the process if the call returns.
abbrev pub Returns {ℓ} : {P : Type 0} → (P → Type ℓ) → Outcome P → Type ℓ
Returns Q (returned p) = Q p
Returns Q (threw f p) = Unit

module _ (os : Os) (doc : Documented os) where
  open os use {Process}
  open doc use {uids, gids, groups}

  -- The process has the ids of the named user, who is not root, and of the named group or else the
  -- user's own, and the supplementary groups of both.
  pub record IsDropped (user group : Bytes) (p : Process) : Type 0 where
    pub pw : Passwd
    pub gid : ℕ
    pub user_is : find_user os user ≡ some pw
    pub group_is : target_gid os group pw ≡ some gid
    pub not_root : pw.uid ≢ 0
    pub uids_are : uids p ≡ all pw.uid
    pub gids_are : gids p ≡ all gid
    pub groups_are : groups p ≡ (pw.name, gid)

  verify-Returns :
      (Q : Process → Type 0) (p : Process) → ((uids p).real ≢ 0 → Q p) → Returns Q (verify os p)
  unfolding verify
  verify-Returns Q p q = elim (Bool-cases (os.setuid 0 p).0) [
    | inl t ↦ rw t tt
    | inr t ↦ rw t (
        subst Q (sym (doc.setuid_failed 0 p t))
          (q (λ e. absurd (let denied = doc.setuid_real 0 p e in ground arith))))
  ]

  change_uid-Returns :
      (Q : Process → Type 0) (pw : Passwd) (p : Process)
      → os.geteuid p ≡ 0
      → ((p' : Process)
          → uids p' ≡ all pw.uid
          → gids p' ≡ gids p
          → groups p' ≡ groups p
          → pw.uid ≢ 0
          → Q p')
      → Returns Q (change_uid os pw p)
  unfolding change_uid
  change_uid-Returns Q pw p root q = elim (Bool-cases (os.setuid pw.uid p).0) [
    | inr t ↦ rw t tt
    | inl t ↦ rw t (
        let (u, g, s) = doc.setuid_root pw.uid p root t in
        verify-Returns Q _ (λ n. q _ u g s (λ z. n (ap (λ (i : Ids). i.real) u ∙ z))))
  ]

  pub euid-same : (p p' : Process) → uids p' ≡ uids p → os.geteuid p ≡ 0 → os.geteuid p' ≡ 0
  euid-same p p' e root =
      doc.geteuid_is p' ∙ ap (λ (i : Ids). i.effective) e ∙ sym (doc.geteuid_is p) ∙ root

  change_gid-Returns :
      (Q : Process → Type 0) (gid : ℕ) (pw : Passwd) (p : Process)
      → os.geteuid p ≡ 0
      → ((p' : Process)
          → uids p' ≡ all pw.uid
          → gids p' ≡ all gid
          → groups p' ≡ groups p
          → pw.uid ≢ 0
          → Q p')
      → Returns Q (change_gid os gid pw p)
  unfolding change_gid
  change_gid-Returns Q gid pw p root q = elim (Bool-cases (os.setgid gid p).0) [
    | inr t ↦ rw t tt
    | inl t ↦ rw t (
        let (g, u, s) = doc.setgid_root gid p root t in
        change_uid-Returns Q pw _ (euid-same p _ u root)
          (λ p' u' g' s' n. q p' u' (g' ∙ g) (s' ∙ s) n))
  ]

  change_ids-Returns :
      (Q : Process → Type 0) (gid : ℕ) (pw : Passwd) (p : Process)
      → os.geteuid p ≡ 0
      → ((p' : Process)
          → uids p' ≡ all pw.uid
          → gids p' ≡ all gid
          → groups p' ≡ (pw.name, gid)
          → pw.uid ≢ 0
          → Q p')
      → Returns Q (change_ids os gid pw p)
  unfolding change_ids
  change_ids-Returns Q gid pw p root q = elim (Bool-cases (os.initgroups pw.name gid p).0) [
    | inr t ↦ rw t tt
    | inl t ↦ rw t (
        let (s, u, g) = doc.initgroups_root pw.name gid p root t in
        change_gid-Returns Q gid pw _ (euid-same p _ u root)
          (λ p' u' g' s' n. q p' u' g' (s' ∙ s) n))
  ]

  change_to-Returns :
      (user group : Bytes) (o : Option ℕ) (pw : Passwd) (p : Process)
      → find_user os user ≡ some pw
      → target_gid os group pw ≡ o
      → os.geteuid p ≡ 0
      → Returns (IsDropped user group) (change_to os o pw p)
  unfolding change_to
  change_to-Returns user group none pw p e t root = tt
  change_to-Returns user group (some gid) pw p e t root =
      change_ids-Returns (IsDropped user group) gid pw p root (λ p' u g s n. record {
        pw = pw;
        gid = gid;
        user_is = e;
        group_is = t;
        not_root = n;
        uids_are = u;
        gids_are = g;
        groups_are = s;
      })

  drop_to-Returns :
      (user group : Bytes) (o : Option Passwd) (p : Process)
      → find_user os user ≡ o
      → os.geteuid p ≡ 0
      → Returns (IsDropped user group) (drop_to os group o p)
  unfolding drop_to
  drop_to-Returns user group none p e root = tt
  drop_to-Returns user group (some pw) p e root =
      change_to-Returns user group (target_gid os group pw) pw p e refl root

  pub drop-Returns :
      (user group : Bytes) (p : Process)
      → os.geteuid p ≡ 0
      → Returns (IsDropped user group) (drop os user group p)
  unfolding drop
  drop-Returns user group p root = elim (Bool-cases (is_empty user)) [
    | inl t ↦ rw t tt
    | inr t ↦ rw t (drop_to-Returns user group (find_user os user) p refl root)
  ]

  -- A process of root whose drop to a user and a group returns has the ids of the named user, who is
  -- not root, the group that is named or else that of the user, and the supplementary groups of both.
  pub drop-IsDropped :
      (user group : Bytes) (p p' : Process)
      → os.geteuid p ≡ 0
      → drop os user group p ≡ returned p'
      → IsDropped user group p'
  drop-IsDropped user group p p' root e =
      subst (Returns (IsDropped user group)) e (drop-Returns user group p root)
