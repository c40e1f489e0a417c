-- ===== src/Lib.antt =====
-- The server of Deep Dip 2 and Dips++ (dd2-server): players' plugins connect to it by TCP, log in,
-- report what they do on a map, and get leaderboards, unlocks and the hats of other players.
--
-- A connection reads requests from its socket (src/router.rs), keeps the context that the player
-- reports, and handles each request by queries and, for unlocks, by Nadeo's services
-- (src/nadeo.rs). It pushes to its own queue or, through the manager, to the players on a map
-- (src/server2.rs). Caches and limiters stand in front of the database and of Nadeo.
--
-- Modules and what they model:
--   Prelude         shared: lists, tests, equality, Result, maps, sets, LRU maps, texts
--   RateLimit       counting in fixed windows, for the limiters
--   CacheUtil       src/cache_util.rs: AsyncCache::get_or_insert_with, check_purge_old
--   Player          src/player.rs: encode_context_flags, decode_context_flags, check_flags_sf_mi
--   Hats            src/queries/hats.rs: HatEquipRateLimiter
--   Catalog         src/queries/hats.rs, src/queries/collectibles.rs, src/queries/minigames.rs: the
--                   parsers of a map's spec
--     Slugs         the slug, its number and the next default, the name
--     Entries       the loop over the entries, for any step that makes something of one
--     Hats          parse_catalog_hats, parse_unlock
--     Collectibles  parse_catalog_collectibles, parse_collect_paths
--     Minigames     parse_catalog_games, map_kind_from_game
--   Wayfinder       src/queries/listed_maps.rs, src/queries/custom_map_aux_specs.rs
--     Tables        the tables, the three catalogs of a spec, and their copies for a map
--     Bindings      prepare_authoritative_bind, commit_authoritative_bind, commit_comment_bind and
--                   resolve_bound_spec
--     Specs         upsert_spec_and_catalogs, delete_spec, listing_threshold_from_spec, and the
--                   handlers upsert_custom_map_aux_spec and delete_custom_map_aux_spec_inner of
--                   src/server2.rs
--     Hats          report_unlock and report_equip of src/queries/hats.rs, lock_materialized_spec
--     Attempts      report_attempt of src/queries/minigames.rs
--     Pickups       report_unlock and report_collect of src/queries/collectibles.rs
--     Reach         these transactions in any order, and in Guarantees what they keep
--   Moderation      src/queries/moderation.rs, src/moderation_http.rs
--     Tables        the tables of bans, delegates, super mods, sessions and events, with one
--                   function for each query, and the statements that change them
--     Handling      what a handler may do: a query, which may fail, or a reply
--     Handlers      session_user, ensure_map_meta, can_moderate_map, require_moderator
--     Bans, Admins  the handlers of the requests that change a table
--     Requests      those requests, as routes brings them to the handlers
--     Standing      runs of requests
--   Nadeo           src/nadeo.rs
--     Admission     the windows that admit lookups
--     Records       CachedOfficialRecordVerifier: lookup, has_recent_official_record, the throttle
--     Gbx           parse_header_chunk_table, extract_comments, find_subslice
--   Router          src/router.rs
--     Request       Request with ty and name; Response with into and name; Values, their structs
--     Wire          read_from_socket, write_to_socket
--     Context       PlayerCtx, is_official
--   Server          src/server2.rs
--     CommentBind   comment_bind_admit, comment_bind_reschedule and the end of an attempt
--     PendingHatUnlocks  begin, release and the drop of the guards
--     MapLocks      WayfinderMapOperationLocks::for_map
--     Delivery      deliver_player_mgr_message
--     MapTracking   adopt_wayfinder_map, apply_context_map_change, the presence pushes
--     Reports       on_report_stats, on_report_pb_height
--     PluginVersion check_min_plugin_version
--
-- How the code is modelled. Numbers are natural numbers; u32 and u64 arithmetic keeps its wrapping
-- or saturation where the code has it. Instants and durations are numbers, of the unit that a
-- file's comment names. A Mutex section is a function of the state; what other tasks do between
-- two sections is an argument, or a step of a relation whose reachable states the invariants are
-- about. HashMap and HashSet are association lists, since the code never reads their order; an LRU
-- map is an interface with a bounded instance. A handler of src/moderation_http.rs runs its
-- queries in a World: which of them fail, and which statements of other requests come before each
-- and when. A database transaction is one step; one that fails changes nothing. A handler of a
-- spec runs alone, but Wayfinder.Reach has its transactions as steps of their own. Floats, and
-- integers that are only carried, are kept by their bits. Panics by poisoned locks do not occur,
-- as the code recovers from them.
--
-- Parameters for code of other packages: serde_json (a Value's fields in Catalog.Json, and the
-- parsing and printing of messages), MD5, the parsing of UUIDs and times, Trackmania's OAuth, the
-- database's answers where a query is not modelled, its text order, Nadeo's answers, and what is
-- read of the clock.
--
-- Fuel and bounds. Only two functions count down: the ten digits of a u32's text, enough below
-- 10 ^ 10, and the starts of a chunk table, one for each position the code tries. The trimming
-- loops of the context flags have one unit for each factor; that they end is a result. The three
-- passes of a record's retries and the 15 flags are the code's own bounds.
--
-- Not modelled: queries that only read what is printed, HTTP clients and the texts of pages and
-- cookies, the tokens of Openplanet and Trackmania, the socket and task plumbing, the older server
-- (src/server.rs), the donations' timer and the database cleaning tool, which are calls of other
-- systems; and the URL of a published comment and the recheck of a bind.
pub mod Prelude
pub mod CacheUtil
pub mod Player
pub mod RateLimit
pub mod Hats
pub mod Nadeo
pub mod Server
pub mod Router
pub mod Catalog
pub mod Moderation
pub mod Wayfinder
