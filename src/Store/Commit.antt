-- ===== src/Store/Commit.antt =====
-- What a unit of work that returns has done: its last transaction was committed, and then closed.
use aiot_powerguard.Prelude.{◌≡◌, refl, Bool, true, false, arith}
use aiot_powerguard.Store.{
  Answer, value, integrity, failure, Database, Outcome, returns, raises, Uow, Task, ◌>>◌, give,
  and_then, commit, leave, with_uow, committed_by,
}

module _ {F S R : Type 0} (db : Database F S R) where
  -- `s` is what a commit that succeeded and the close after it have left
  pub record IsCommitted (s : S) : Type 0 where
    pub before : S
    pub commit_ok : (db.commit before).0 ≡ value tt
    pub close_ok : (db.close (db.commit before).1).0 ≡ value tt
    pub after : s ≡ (db.close (db.commit before).1).1

  -- a block that returns has ended with a commit that succeeded
  abbrev pub Durable : {A : Type 0} → Outcome A × Uow S → Type 0
  Durable (returns a, u) =
      (s : S) × ((db.commit s).0 ≡ value tt) × (u.session ≡ (db.commit s).1) × (u.committed ≡ true)
  Durable (raises e, u) = Unit

  pub and_then-Durable :
      {A B : Type 0} (p : Outcome A × Uow S) (f : A → Task S B)
      → ((a : A) (u : Uow S) → Durable (f a u))
      → Durable (and_then p f)
  unfolding and_then
  and_then-Durable (returns a, u) f h = h a u
  and_then-Durable (raises e, u) f h = tt

  committed-Durable :
      {A : Type 0} (c : Bool) (a : A) (s : S) (p : Answer (Unit {0}) × S)
      → db.commit s ≡ p
      → Durable (and_then (committed_by db c p) (λ _. give a))
  unfolding and_then committed_by
  committed-Durable c a s (value _, s1) e = (s, ground arith, ground arith, refl)
  committed-Durable c a s (integrity m, s1) e = tt
  committed-Durable c a s (failure, s1) e = tt

  pub commit-Durable : {A : Type 0} (a : A) (u : Uow S) → Durable ((commit db >> give a) u)
  unfolding commit
  commit-Durable a u = committed-Durable u.committed a u.session (db.commit u.session) refl

  leave-IsCommitted :
      {A : Type 0} (out : Outcome A) (u : Uow S) (a : A) (s : S)
      → Durable (out, u)
      → leave db out u ≡ (returns a, s)
      → IsCommitted s
  unfolding leave
  leave-IsCommitted (returns b) u a s (s0, ok, same, flag) h = record {
    before = s0;
    commit_ok = ok;
    close_ok = ground arith;
    after = ground arith;
  }
  leave-IsCommitted (raises e) u a s d h = absurd (ground arith)

  -- If a unit of work returns, and its block can only return from a commit, then its storage is
  -- what that commit and a close have left.
  pub with_uow-IsCommitted :
      {A : Type 0} (block : Task S A) (a : A) (s s' : S)
      → ((u : Uow S) → Durable (block u))
      → with_uow db block s ≡ (returns a, s')
      → IsCommitted s'
  unfolding with_uow
  with_uow-IsCommitted block a s s' d h =
      let u : Uow S = record { session = db.open_session s; committed = false } in
      leave-IsCommitted (block u).0 (block u).1 a s' (d u) h
