-- ===== src/Core/Search/Blind.antt =====
-- engraphy/core/search.py: rows that a session cannot see have no part in what it finds.
use mathlib.Core.Path.{fun_ext}
use engraphy.Base.{
  ℕ, ◌+◌, String, ◌≡◌, refl, ap, Bool, ◌&&◌, ◌||◌, List, [], map, ℤ, ltb, keep, length, ◌==◌,
  contains, string_eq, nat_eq, if◌then◌else◌, arith,
}
use engraphy.Core.Store.{Db, Session, Node, Edge, Vector, visible, readable_scopes}
use engraphy.Core.Get.Blind.{blind, keep-keep, readable_edge-blind}
use engraphy.Core.Search.{
  Finder, Filter, passes, ranks, vector_leg, lexical_leg, hydrate_union, near_dup_pairs,
  declared_distinct_pairs, collapse_pairs, collapse_near_dupes, all_near, read_dedup_sim,
}
use engraphy.Core.Search.Fuse.{Scores}
use engraphy.Core.Search.Query.{
  Fusion, Query, Search, legs, union_ids, fuse_legs, left_after, hybrid_fuse, edge_count,
  search_item, query_of, fused_for,
}

module _ (t : Finder) (s : Session) (db : Db) where
  vector_leg-blind :
      (query : Vector) (f : Filter)
      → vector_leg t s query f (blind s db) ≡ vector_leg t s query f db
  unfolding vector_leg passes blind visible readable_scopes
  vector_leg-blind query f =
      rw (keep-keep (passes s f db) (visible s db) (λ n h. ground (arith, h)) db.nodes) refl

  lexical_leg-blind :
      (text : String) (f : Filter) → lexical_leg t s text f (blind s db) ≡ lexical_leg t s text f db
  unfolding lexical_leg passes blind visible readable_scopes
  lexical_leg-blind text f =
      rw
        (keep-keep (λ n. passes s f db n && ranks t text n) (visible s db)
          (λ n h. ground (arith, h)) db.nodes)
        refl

  hydrate_union-blind : (ids : List ℕ) → hydrate_union s ids (blind s db) ≡ hydrate_union s ids db
  unfolding hydrate_union blind visible readable_scopes
  hydrate_union-blind ids =
      keep-keep (λ n. contains ids n.id && visible s db n) (visible s db) (λ n h. ground (arith, h))
        db.nodes

  near_dup_pairs-blind :
      (threshold : ℤ) (ids : List ℕ)
      → near_dup_pairs t s threshold ids (blind s db) ≡ near_dup_pairs t s threshold ids db
  unfolding near_dup_pairs
  near_dup_pairs-blind threshold ids =
      ap
        (λ (found : List Node).
          if ltb (length ids) 2
          then []
          else let rows = keep (λ n. n.space == s.space) found in all_near t threshold rows rows)
        (hydrate_union-blind ids)

  declared-blind :
      (ids : List ℕ) → declared_distinct_pairs s ids (blind s db) ≡ declared_distinct_pairs s ids db
  unfolding declared_distinct_pairs blind
  declared-blind ids =
      ap
        (λ (r : Edge → Bool).
          if ltb (length ids) 2
          then []
          else map (λ e. (e.src, e.dst))
              (keep
                (λ e.
                  r e
                  && ((e.edge_type == "same_topic" || e.edge_type == "relates_to")
                      && (contains ids e.src && contains ids e.dst)))
                db.edges))
        (fun_ext (readable_edge-blind s db))

  collapse_pairs-blind :
      (profile : String) (ids : List ℕ)
      → collapse_pairs t s profile ids (blind s db) ≡ collapse_pairs t s profile ids db
  unfolding collapse_pairs
  collapse_pairs-blind profile ids =
      rw (near_dup_pairs-blind (read_dedup_sim profile) ids, declared-blind ids) refl

  left_after-blind :
      (profile : String) (q : Query) (fused : Scores)
      → left_after t s profile q (blind s db) fused ≡ left_after t s profile q db fused
  unfolding left_after collapse_near_dupes
  left_after-blind profile q fused = rw (collapse_pairs-blind profile (map (λ e. e.0) fused)) refl

  legs-blind : (q : Query) → legs t s q (blind s db) ≡ legs t s q db
  unfolding legs
  legs-blind q = rw (vector_leg-blind q.vector q.filter, lexical_leg-blind q.text q.filter) refl

  fuse_legs-blind :
      (found : List (ℕ × ℤ) × List ℕ) → fuse_legs t s (blind s db) found ≡ fuse_legs t s db found
  unfolding fuse_legs
  fuse_legs-blind (hits, lexical) = rw (hydrate_union-blind (union_ids (hits, lexical))) refl

  hybrid_fuse-blind :
      (profile : String) (q : Query)
      → hybrid_fuse t s profile q (blind s db) ≡ hybrid_fuse t s profile q db
  unfolding hybrid_fuse
  hybrid_fuse-blind profile q = rw (legs-blind q) (
      rw (fuse_legs-blind (legs t s q db), hydrate_union-blind (union_ids (legs t s q db)))
        (rw (left_after-blind profile q (fuse_legs t s db (legs t s q db))) refl))

  edge_count-blind : (id : ℕ) → edge_count s (blind s db) id ≡ edge_count s db id
  unfolding edge_count blind
  edge_count-blind id =
      ap
        (λ (r : Edge → Bool).
          length (keep (λ e. r e && e.src == id) db.edges)
          + length (keep (λ e. r e && e.dst == id) db.edges))
        (fun_ext (readable_edge-blind s db))

  pub search_item-blind :
      (detail : String) (f : Fusion) (score : ℕ) (n : Node)
      → search_item t s detail (blind s db) f score n ≡ search_item t s detail db f score n
  unfolding search_item
  search_item-blind detail f score n = rw (edge_count-blind n.id) refl

  pub fused_for-blind :
      (profile : String) (a : Search) (scope_set : List String)
      → fused_for t s profile a scope_set (blind s db) ≡ fused_for t s profile a scope_set db
  unfolding fused_for
  fused_for-blind profile a scope_set = rw (hybrid_fuse-blind profile (query_of t a scope_set)) refl
