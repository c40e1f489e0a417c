-- ===== src/Router/Values.antt =====
-- src/router.rs: the numbers and the shared structs of the messages.
use dd2_server.Prelude.{ℕ, Bool, Option, String}

-- A machine number by its bits; the messages only carry it.
abbrev pub U8 : Type 0
U8 = ℕ

abbrev pub U32 : Type 0
U32 = ℕ

abbrev pub I32 : Type 0
I32 = ℕ

abbrev pub I64 : Type 0
I64 = ℕ

abbrev pub F32 : Type 0
F32 = ℕ

abbrev pub F64 : Type 0
F64 = ℕ

pub record Map : Type 0 where
  pub uid : String
  pub name : String
  pub hash : String

pub record Stats (JsonValue : Type 0) : Type 0 where
  pub seconds_spent_in_map : I64
  pub nb_jumps : U32
  pub nb_falls : U32
  pub nb_floors_fallen : U32
  pub last_pb_set_ts : U32
  pub total_dist_fallen : F32
  pub pb_height : F32
  pub pb_floor : U32
  pub nb_resets : U32
  pub ggs_triggered : U32
  pub title_gags_triggered : U32
  pub title_gags_special_triggered : U32
  pub bye_byes_triggered : U32
  pub monument_triggers : JsonValue
  pub reached_floor_count : JsonValue
  pub floor_voice_lines_played : JsonValue
  pub extra : Option JsonValue

pub record LeaderboardEntry : Type 0 where
  pub rank : U32
  pub wsid : String
  pub height : F32
  pub ts : U32
  pub name : String
  pub update_count : I32
  pub color : F64 × F64 × F64

pub record LeaderboardEntry2 : Type 0 where
  pub rank : U32
  pub wsid : String
  pub pos : F64 × F64 × F64
  pub ts : U32
  pub name : String
  pub update_count : I32
  pub color : F64 × F64 × F64
  pub race_time : I64

pub record MinigameLbEntry : Type 0 where
  pub rank : U32
  pub wsid : String
  pub name : String
  pub score : I64
  pub ts : U32

pub record MinigameListGame : Type 0 where
  pub slug : String
  pub kind : String
  pub name : String
  pub key : String

pub record CollectibleListItem : Type 0 where
  pub slug : String
  pub name : String
  pub pickup : String
  pub collect_on_unlock : Bool
  pub has_zone : Bool
  pub gated_by : Option String
  pub unlock_score : Option I64
  pub key : String

pub record CollectibleMineItem : Type 0 where
  pub slug : String
  pub name : String
  pub pickup : String
  pub collect_on_unlock : Bool
  pub has_zone : Bool
  pub gated_by : Option String
  pub unlock_score : Option I64
  pub key : String
  pub unlocked_at : Option U32
  pub collected_at : Option U32

pub record HatMineItem : Type 0 where
  pub slug : String
  pub name : String
  pub key : String
  pub unlocked_at : Option U32

pub record HatOnMapPlayer : Type 0 where
  pub wsid : String
  pub name : String
  pub slug : String

pub record Donor : Type 0 where
  pub name : String
  pub amount : F64

pub record Donation : Type 0 where
  pub name : String
  pub amount : F64
  pub comment : String
  pub ts : I64

pub record AssetRef : Type 0 where
  pub name : String
  pub filename : String
  pub url : String
