-- ===== src/Tests/Reads.antt =====
-- The reads of engraphy/core, links, the inbox and the counters at sample inputs.
use engraphy.Base.{
  ◌+◌, ◌-◌, ◌||◌, ◌≡◌, refl, true, false, none, some, List, [], ◌∷◌, pos, if◌then◌else◌, insert_by,
  sort_by, nat_eq, string_eq, ◌==◌, contains, length, inl, ◌⊎◌, arith,
}
use engraphy.Core.Json.{str}
use engraphy.Core.Tx.{ok, err, Error, privilege, check_violation}
use engraphy.Core.Tx.Leads.{Returns}
use engraphy.Core.Store.{
  Db, Session, InboxRow, Link, team_read, status_eq, pending, readable_scopes, writable_scopes,
  update_error, visible,
}
use engraphy.Core.Search.{Finder}
use engraphy.Core.Search.Fuse.{
  Floats, rrf_fuse, score_leg, add_score, ranks_before, stamp, up_to, rounded, Scores,
}
use engraphy.Core.Search.Fuse.Laws.{Ranked, rrf_score, rrf_fuse-Ranked}
use engraphy.Core.Search.Collapse.{Collapsed, collapse_by_pairs, collapse_by_pairs-Collapsed}
use engraphy.Core.Search.Query.{Search, SearchReply, search_nodes}
use engraphy.Core.Search.Shown.{Answer, search_nodes-Answer}
use engraphy.Core.Search.Answers.{surfaced_ids, search_nodes-answers, search_nodes-denied}
use engraphy.Core.Recall.{surfaced, recalled}
use engraphy.Core.AttrSpec.{validate_attrs}
use engraphy.Core.Json.{sorted, keys}
use engraphy.Core.ScopeSet.{resolved}
use engraphy.Core.Store.{visible, readable_scopes, Node, ambient_scope_set, readable_edge}
use engraphy.Core.Dedup.Bands.{for_profile}
use engraphy.Core.Search.Collapse.{collapse_from, near}
use engraphy.Core.Search.Query.{
  fused_for, union_ids, legs, above, left_after, fuse_legs, clamp_limit, hybrid_fuse, query_of,
}
use engraphy.Core.Search.{
  vector_leg, lexical_leg, all_near, by_distance, collapse_near_dupes, collapse_pairs,
  declared_distinct_pairs, hydrate_union, near_dup_pairs, near_ones, passes, ranks, read_dedup_sim,
}
use engraphy.Core.Get.Blind.{blind}
use engraphy.Core.Update.{Encoder, Change, prepare, apply_plan}
use engraphy.Core.Update.Keeps.{Planned, Replaced, apply_plan-Replaced}
use engraphy.Core.Metrics.{stats, day_of, clamp_days}
use engraphy.Core.Metrics.Totals.{IsReport, stats-IsReport}
use engraphy.Core.Inbox.{promote}
use engraphy.Core.Inbox.Settles.{Promoted, promote-Promoted}
use engraphy.Core.Inbox.History.{Event, captures, promotes, settles, discards}
use engraphy.Tests.Samples.{env, alice, bands, far, db, old_node}

abbrev floats : Floats
floats = record { add = λ a b. a + b; reciprocal = λ n. 1000 - n; round6 = λ a. a }

fused : rrf_fuse floats (1 ∷ 2 ∷ []) (2 ∷ 3 ∷ []) [] 60 none ≡ (2, 1877) ∷ (1, 939) ∷ (3, 938) ∷ []
unfolding rrf_fuse score_leg add_score ranks_before stamp up_to rounded insert_by sort_by nat_eq
fused = refl

abbrev finder : Finder
finder = record {
  env = env;
  floats = floats;
  embed_query = λ text. pos 5 ∷ [];
  rank = λ text n. if text == n.title then some 1 else none;
}

abbrev ask : Search
ask = record {
  scope = "home";
  text = "tea time";
  source_client = "cli";
  types = [];
  limit = pos 5;
  include_inactive = false;
  detail = "full";
  collapse_near_dupes = true;
  no_scope_all = false;
}

rrf_fuse-Ranked_example :
    Ranked floats
      (stamp [])
      (rrf_score floats 60 (1 ∷ 2 ∷ []) (2 ∷ 3 ∷ []))
      (λ id. contains (2 ∷ 3 ∷ []) id || contains (1 ∷ 2 ∷ []) id)
      (rrf_fuse floats (1 ∷ 2 ∷ []) (2 ∷ 3 ∷ []) [] 60 none)
rrf_fuse-Ranked_example = rrf_fuse-Ranked floats (1 ∷ 2 ∷ []) (2 ∷ 3 ∷ []) [] 60

abbrev base : Scores
base = (2, 9) ∷ (1, 8) ∷ (3, 7) ∷ []

collapse_by_pairs-Collapsed_example :
    Collapsed ((1, 2) ∷ []) base (collapse_by_pairs base ((1, 2) ∷ []))
collapse_by_pairs-Collapsed_example = collapse_by_pairs-Collapsed base ((1, 2) ∷ [])

search_nodes-Answer_example :
    Returns (λ r x. Answer alice ask db r) (search_nodes finder alice "fp32" ask db)
search_nodes-Answer_example = search_nodes-Answer finder alice "fp32" ask db (tt, tt)

-- A row with the same text, in a scope that alice cannot read.
abbrev unseen_node : Node
unseen_node = record old_node { id = 7; scope = "attic" }

abbrev db_unseen : Db
db_unseen = record db { nodes = unseen_node ∷ db.nodes }

unseen : (visible alice db_unseen unseen_node ≡ false) × ((blind alice db_unseen).nodes ≡ db.nodes)
unfolding visible readable_scopes blind engraphy.Base.string_eq
unseen = (refl, refl)

abbrev items : List Link
items = record { link_type = some "same_topic"; extra = []; src_id = some 1; dst_id = some 3 } ∷ []

abbrev db_linked : Db
db_linked = record db { nodes = old_node ∷ record old_node { id = 3 } ∷ [] }

stats-IsReport_example :
    Returns
      (λ r t. IsReport alice (clamp_days (pos 1)) "user" db r × (t ≡ db))
      (stats alice (pos 1) "user" db)
unfolding day_of clamp_days
stats-IsReport_example = stats-IsReport alice (pos 1) "user" db (omega arith)

abbrev note_item : InboxRow
note_item = record {
  id = 4;
  space = "main";
  scope = some "home";
  kind = some "note";
  payload = str "coffee at nine";
  status = pending;
  created_at = 3;
}

abbrev db_inbox : Db
db_inbox = record db { inbox = note_item ∷ [] }

promote-Promoted_example :
    Returns
      (Promoted alice 4 db_inbox)
      (promote env alice "fp32" (some bands) (some (pos 750000)) 4 far db_inbox)
promote-Promoted_example =
    promote-Promoted env alice "fp32" (some bands) (some (pos 750000)) 4 far db_inbox (tt, tt)

abbrev events : List Event
events =
    captures alice (some "note") (str "milk at ten") none
    ∷ promotes env alice "fp32" (some bands) (some (pos 750000)) 4 far
    ∷ discards alice 10
    ∷ settles alice 10
    ∷ []

-- A member of the space who may read its team's scopes, and a scope of the team.
abbrev bob : Session
bob = record { space = "main"; principal = "bob" }

abbrev db_team : Db
db_team = record db {
  scopes =
      record {
        space = "main";
        id = "home";
        owner = "alice";
        visibility = team_read;
        ambient = true;
        is_archived = false;
        display_name = "Home";
        description = some "what happens at home";
        hints = [];
        created_at = 0;
      }
      ∷ [];
}

search_nodes-answers_example :
    (r : SearchReply) × (after : Db) × (search_nodes finder alice "fp32" ask db ≡ ok (r, after))
    × (length r.results ≡ length (surfaced_ids finder alice "fp32" ask db))
unfolding string_eq surfaced fused_for nat_eq resolved ambient_scope_set readable_scopes union_ids
    legs above vector_leg visible status_eq lexical_leg left_after fuse_legs rrf_fuse insert_by
    sort_by for_profile collapse_by_pairs collapse_from near add_score ranks_before rounded
    score_leg stamp up_to clamp_limit hybrid_fuse query_of all_near by_distance collapse_near_dupes
    collapse_pairs declared_distinct_pairs hydrate_union near_dup_pairs near_ones passes ranks
    read_dedup_sim readable_edge writable_scopes update_error validate_attrs sorted keys recalled
search_nodes-answers_example = search_nodes-answers finder alice "fp32" ask db refl (refl, tt)

search_nodes-denied_example :
    (e : Error) × (search_nodes finder bob "fp32" ask db_team ≡ err e)
    × ((e ≡ privilege) ⊎ (e ≡ check_violation))
unfolding string_eq surfaced fused_for nat_eq resolved ambient_scope_set readable_scopes union_ids
    legs above vector_leg visible status_eq lexical_leg left_after fuse_legs rrf_fuse insert_by
    sort_by for_profile collapse_by_pairs collapse_from near add_score ranks_before rounded
    score_leg stamp up_to clamp_limit hybrid_fuse query_of all_near by_distance collapse_near_dupes
    collapse_pairs declared_distinct_pairs hydrate_union near_dup_pairs near_ones passes ranks
    read_dedup_sim readable_edge writable_scopes
search_nodes-denied_example =
    search_nodes-denied finder bob "fp32" ask db_team refl old_node (inl refl) refl refl

abbrev encoder : Encoder
encoder = record { env = env; embed_document = λ text. pos 9 ∷ []; show = λ v. "value" }

abbrev change : Change
change = record { title = none; body = some "tea is at six"; attrs = none }

-- Between the two, the node was renamed.
abbrev db_renamed : Db
db_renamed = record db { nodes = record old_node { title = "Tea at five" } ∷ [] }

apply_plan-Replaced_example :
    Returns
      (λ p x.
        Planned encoder alice 1 change db p
        × (x ≡ db)
        × Returns
            (λ u after. Replaced encoder alice 1 db_renamed p after)
            (apply_plan encoder alice 1 p db_renamed))
      (prepare encoder alice 1 change db)
apply_plan-Replaced_example = apply_plan-Replaced encoder alice 1 change db db_renamed
