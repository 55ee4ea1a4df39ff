-- ===== src/Lib.antt =====
-- Engraphy's writes, searches, walks and lookups, its inbox and counters, and the server before them.
--
-- Engraphy stores memories as nodes of a PostgreSQL database. A request carries a bearer token,
-- which engraphy/server/auth.py turns into an identity. A call of a tool then passes
-- engraphy/server/app.py: the name is resolved to a core tool (engraphy/server/tool_registry.py,
-- engraphy/server/aliases.py), the role gate and the rate limiter are asked, and the arguments are
-- checked (engraphy/server/wire_types.py). A write then runs through engraphy/core/dedup.py in one
-- transaction: the attrs are checked and bad values set aside (engraphy/core/attr_spec.py), the
-- nearest memories of the type are looked up (engraphy/core/visibility.py says in which scopes),
-- and the similarity of the best selects a band: a new node, a parked write that the caller must
-- confirm, or a merge, which absorbs a text that engraphy/core/jaccard.py finds known and links one
-- that it finds novel. A search fuses the ranks of a vector leg and a full text leg
-- (engraphy/core/search.py), leaves near duplicates out, and counts what it showed in the same
-- transaction (engraphy/core/recall.py). engraphy/core/inbox.py holds captures until a reviewer
-- promotes one, which is a write, or discards it. engraphy/core/metrics.py counts what committed,
-- in a transaction of its own.
--
-- Base           shared names, equality as an instance, native integers and lists; Sorting has the
--                insertion sort that stands for sorted and ORDER BY, Members has membership.
-- Core.Json      JSON values and Python dicts of them.
-- Core.AttrSpec  engraphy/core/attr_spec.py: validate_attrs, sanitize_attrs, searchable_keys. Its
--                children prove what the quarantine keeps and when the result is accepted.
-- Core.Tx        engraphy/server/db.py: a transaction as an action over the tables, which returns or
--                raises and rolls back. Tx.Keeps and Tx.Leads are rules for invariants and for
--                what an action that commits leads to.
-- Core.Store     the tables of engraphy/db/schema.sql and the statements of the write path, with
--                the policies, triggers and constraints that answer them; engraphy/core/visibility.py.
--                Store.Growth says what a later state keeps of an earlier one.
-- Core.Jaccard   engraphy/core/jaccard.py: tokenize, jaccard, is_novel.
-- Core.Dedup     engraphy/core/dedup.py. Bands: select_band, _resolve_config. Links:
--                _validate_links_shape, _attach_links. Candidates: the candidate query,
--                _resolve_canonical, the cluster's texts. Branches: _do_insert, _do_pending,
--                _do_review_queue, _merge_branch, _do_merge_link, _do_absorb. Write: _locked_core and
--                write. Resolve: resolve_duplicate. Supersede: supersede. Resonance: the report after
--                a commit, resolve_attr_surface. Counted: the usage counters that follow a commit.
--                The other children prove.
-- Core.Search    engraphy/core/search.py: the legs and the queries on near pairs. Fuse: rrf_fuse, and
--                rerank_fuse of engraphy/core/rerank.py. Collapse: _collapse_by_pairs. Query:
--                hybrid_fuse and search. The other children prove.
-- Core.Traverse  engraphy/core/traverse.py: the recursive query and its rows. Reply: traverse. The other
--                children prove.
-- Core.Recall    engraphy/core/recall.py: bump_recall.
-- Core.Metrics   engraphy/core/metrics.py: bump_many, bump_safe, stats.
-- Core.Inbox     engraphy/core/inbox.py: capture, list_pending, promote, discard. Lifecycle and History
--                follow the items over any run of operations.
-- Core.Get       engraphy/core/get.py: get.
-- Core.Link      engraphy/core/link.py: link.
-- Core.Update    engraphy/core/update.py: update, as `prepare` and `apply_plan`, with any tables between.
-- Core.Embedding engraphy/core/embedding.py: render_attr_surface, searchable_text.
-- Core.Pending   engraphy/core/pending.py: pending_list, the caller's parked writes.
-- Core.Scopes    engraphy/core/scopes.py: scope_list, scope_guide, scope_create. Owners says who may
--                use a new scope.
-- Core.ScopeSet  engraphy/core/scope_set.py: refuse_scope_all, resolve_scope_set.
-- Server.Auth    engraphy/server/auth.py: mint_token, resolve_token, require_active_principal,
--                classify_kind, require_write.
-- Server.RateLimit  engraphy/server/auth.py: RateLimiter and FailureTracker.
-- Server.Limits  engraphy/server/auth.py: read_rate_limits.
-- Server.Wire    engraphy/server/wire_types.py: SPEC; Validate: validate. Types and Accepts say what a
--                well-formed call is.
-- Server.Aliases engraphy/server/aliases.py: build_aliases, resolve_alias_call.
-- Server.Errors  engraphy/server/tools/errors.py: to_tool_error.
-- Server.Registry  engraphy/server/tool_registry.py: resolve_dispatch, list_tools_for_space.
-- Server.Funnel  engraphy/server/app.py: handle_call_tool. The dispatchers of engraphy/server/tools are
--                a parameter, a function on the tables.
-- Server.Http    engraphy/server/app.py: BearerAuthMiddleware, _read_capped_body, _inbox_capture. The
--                application behind the middleware is a parameter.
-- Tests          runs of the model on a small space, and the theorems at concrete inputs.
--
-- Parameters stand for what is not in the repository's Python: the vector distance (pgvector),
-- json.loads, what the driver and a column of texts make of a JSON value that is no text, Python's
-- round, isoformat, str.lower, str.strip and str.isalnum, date parsing, SHA-256, Python's text of
-- a JSON value, the model stamp, the embedding of a text, PostgreSQL's full text rank, the sum,
-- the reciprocal and the rounding of doubles, and the database's order of texts. A score is a
-- double that is not negative, as its multiple of the least positive one. A similarity and a
-- threshold are integers in millionths; a time is in microseconds. A row id is a number. The
-- canonical chain takes the ten hops of _MAX_CANONICAL_CHAIN and raises after them. The recursive
-- query of traverse takes max_depth rounds, since each makes its rows one hop deeper. Every other
-- loop is a structural recursion.
--
-- Not modelled: the advisory lock (each transaction is one step on the tables, and of two in one
-- operation the second takes the tables as the first leaves them; but the UPDATE of `update` meets
-- any later tables, and the last UPDATE of a promotion is also a step of its own), the briefing,
-- node distances, the embedding model, the dispatchers of engraphy/server/tools (each hands the
-- arguments of a call to one function of engraphy/core), the descriptions and published schemas of
-- the tools, the start of the server process and /healthz, the libraries for HTTP and MCP, the
-- admin command line and the packs, the benchmarks and the deployment scripts. Most of these are
-- input and output around the parts above.
pub mod Base
pub mod Core
pub mod Server
pub mod Tests
