-- ===== src/Core/Dedup/Resolutions.antt =====
-- engraphy/core/dedup.py: what a resolution that commits has checked, and where a canonical chain
-- ends.
use engraphy.Base.{
  ℕ, zero, suc, ◌<◌, String, ◌≡◌, refl, true, false, not, Option, none, some, List, [], ◌∷◌, ℤ,
  ltb→lt, keep, ◌==◌, nat_eq, contains, string_eq, All, arith,
}
use engraphy.Core.Tx.{err, type_error, or_raise, pure}
use engraphy.Core.Tx.Keeps.{Keeps-or_raise}
use engraphy.Core.Tx.Leads.{
  Leads, Returns, Leads-pure, Leads-modify, Leads-bind, Leads-after, Leads-some, Leads-gets,
  Leads-raise, Leads-require, Leads-guard, Keeps-fact,
}
use engraphy.Core.Tx.Runs.{gets-ok, bind-ok, bind-err, or_raise-err}
use engraphy.Core.Store.{Payload, Db, Node, Session, PendingRow, select_node, writable_scopes}
use engraphy.Core.Dedup.Bands.{BandThresholds}
use engraphy.Core.Dedup.Envelope.{Env}
use engraphy.Core.Dedup.Candidates.{chase, resolve_canonical, next_canonical}
use engraphy.Core.Dedup.Write.{require_writable}
use engraphy.Core.Dedup.Resolve.{
  Resolution, resolve_merge, run_resolution, select_pending, delete_pending, resolve_duplicate,
}
use engraphy.Core.Dedup.Moves.{Keeps-resolve_config}

keep-All :
    (id : ℕ) (rows : List PendingRow)
    → All (λ r. (r.id == id) ≡ false) (keep (λ r. not (r.id == id)) rows)
keep-All id [] = tt
keep-All id (r ∷ rows) = ground (arith, keep-All id rows)

-- A parked write of the session, in time and writable.
abbrev pub Resolvable : Session → ℕ → Db → PendingRow → Type 0
Resolvable s id db row =
    (select_pending s id db ≡ some row)
    × (db.now < row.expires_at)
    × (contains (writable_scopes s db) row.payload.scope ≡ true)

-- There was one under the id, and it is gone.
abbrev pub Resolved : Session → ℕ → Db → Db → Type 0
Resolved s id db after =
    ((row : PendingRow) × Resolvable s id db row) × All (λ r. (r.id == id) ≡ false) after.pending

Leads-chase :
    (s : Session) (db : Db) (hops id : ℕ)
    → Leads
        (λ t. t ≡ db)
        (chase s hops id)
        (λ c t. ((n : Node) × (select_node s c db ≡ some n) × (next_canonical n ≡ none)) × t ≡ db)
unfolding chase
Leads-chase s db zero id = Leads-raise _
Leads-chase s db (suc hops) id =
    Leads-gets (select_node s id) _
      (Leads-some _ _ (λ n found. next n found (next_canonical n) refl (Leads-chase s db hops)))
  where
    End : ℕ → Db → Type 0
    End c t = ((n : Node) × (select_node s c db ≡ some n) × (next_canonical n ≡ none)) × t ≡ db

    next :
        (n : Node)
        → select_node s id db ≡ some n
        → (o : Option ℕ) → next_canonical n ≡ o
        → ((m : ℕ) → Leads (λ t. t ≡ db) (chase s hops m) End)
        → Leads (λ t. t ≡ db) (elim o [ none ↦ pure id | some m ↦ chase s hops m ]) End
    next n found none e h = Leads-pure id (λ t k. ((n, found, e), k))
    next n found (some m) e h = h m

-- A canonical chain that is followed to its end reads the tables only, and ends at a node that the
-- session sees and that is not merged or has no canonical of its own.
resolve_canonical-IsEnd :
    (s : Session) (id : ℕ) (db : Db)
    → Returns
        (λ c after.
          ((n : Node) × (select_node s c db ≡ some n) × (next_canonical n ≡ none)) × after ≡ db)
        (resolve_canonical s id db)
unfolding resolve_canonical
resolve_canonical-IsEnd s id db = (Leads-chase s db 10 id).at db refl

Leads-resolve_duplicate :
    (env : Env) (s : Session) (profile : String) (t : Option BandThresholds) (floor : Option ℤ)
    (pending_id : ℕ) (name : String) (merge_into : Option ℕ) (db : Db)
    → Leads
        (λ t. t ≡ db)
        (resolve_duplicate env s profile t floor pending_id name merge_into)
        (λ reply after. Resolved s pending_id db after)
unfolding resolve_duplicate require_writable delete_pending
Leads-resolve_duplicate env s profile t floor pending_id name merge_into db =
    Leads-after (Keeps-or_raise _ _) (λ resolution.
      Leads-after (Keeps-resolve_config s profile t floor) (λ (bands, l).
        Leads-gets (select_pending s pending_id) _ (
          Leads-some _ _ (λ row found.
            Leads-gets (λ t. t.now) _
              (Leads-require _ _ _ (λ in_time.
                Leads-bind {R = λ _ t. Resolvable s pending_id db row}
                  (Leads-gets (writable_scopes s) _
                    (Leads-guard _ _ (λ w t e. (found, ltb→lt db.now row.expires_at in_time, w))))
                  (λ _. Leads-after (Keeps-fact (Resolvable s pending_id db row) _) (λ reply.
                    Leads-bind
                      (Leads-modify {Q = λ _ t. Resolved s pending_id db t} _
                        (λ t h. ((row, h), keep-All pending_id t.pending)))
                      (λ _. Leads-pure _ (λ t h. h))))))))))

-- A resolution that commits found the parked write under its id among the author's own, before its
-- expiry and with a scope that is writable then, and leaves no parked write with that id.
pub resolve_duplicate-Resolved :
    (env : Env) (s : Session) (profile : String) (t : Option BandThresholds) (floor : Option ℤ)
    (pending_id : ℕ) (name : String) (merge_into : Option ℕ) (db : Db)
    → Returns
        (λ reply after. Resolved s pending_id db after)
        (resolve_duplicate env s profile t floor pending_id name merge_into db)
resolve_duplicate-Resolved env s profile t floor pending_id name merge_into db =
    (Leads-resolve_duplicate env s profile t floor pending_id name merge_into db).at db refl

-- A merge into a node that the session does not see raises Python's TypeError, from the unpacking of
-- a missing row in the canonical chase, and not the not-found error of the test that follows.
run_resolution-unseen :
    (env : Env) (s : Session) (bands : BandThresholds) (id : ℕ) (p : Payload) (db : Db)
    → select_node s id db ≡ none
    → run_resolution env s bands (Resolution.merge id) p db ≡ err type_error
unfolding run_resolution resolve_merge resolve_canonical chase
run_resolution-unseen env s bands id p db unseen = bind-err _ _ db (
    bind-ok _ _ db (gets-ok _ db)
      (bind-err (or_raise (select_node s id db) type_error) _ db (or_raise-err _ _ db unseen)))
