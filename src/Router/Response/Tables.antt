-- ===== src/Router/Response/Tables.antt =====
-- The codes and the names of src/router.rs, `Response`, side by side.
use dd2_server.Prelude.{ℕ, [], ◌∷◌, String}
use dd2_server.Prelude.HashMap.{HashMap}

-- The codes, by the names in the logs.
abbrev pub codes : HashMap String ℕ
codes =
    ("AuthFail", 1)
    ∷ ("AuthSuccess", 2)
    ∷ ("ContextAck", 3)
    ∷ ("Ping", 8)
    ∷ ("ServerInfo", 9)
    ∷ ("NonFatalErrorMsg", 10)
    ∷ ("NewRecord", 32)
    ∷ ("Stats", 128)
    ∷ ("GlobalLB", 129)
    ∷ ("FriendsLB", 130)
    ∷ ("GlobalOverview", 131)
    ∷ ("Top3", 132)
    ∷ ("MyRank", 133)
    ∷ ("PlayersPB", 134)
    ∷ ("Donations", 135)
    ∷ ("GfmDonations", 136)
    ∷ ("TwitchName", 137)
    ∷ ("UsersProfile", 138)
    ∷ ("YourPreferences", 139)
    ∷ ("PlayersSpecInfo", 143)
    ∷ ("MapOverview", 192)
    ∷ ("MapLB", 193)
    ∷ ("MapLivePlayers", 194)
    ∷ ("MapRank", 195)
    ∷ ("MinigameLB", 208)
    ∷ ("MinigameRank", 209)
    ∷ ("MinigameList", 210)
    ∷ ("CollectibleList", 211)
    ∷ ("CollectibleMine", 212)
    ∷ ("HatsMine", 213)
    ∷ ("HatsOnMap", 214)
    ∷ ("HatsOnMapUpdate", 215)
    ∷ ("TaskResponse", 253)
    ∷ ("TaskResponseJson", 252)
    ∷ ("SecretAssets", 254)
    ∷ []

-- The same, read backwards.
abbrev pub names : HashMap ℕ String
names =
    (1, "AuthFail")
    ∷ (2, "AuthSuccess")
    ∷ (3, "ContextAck")
    ∷ (8, "Ping")
    ∷ (9, "ServerInfo")
    ∷ (10, "NonFatalErrorMsg")
    ∷ (32, "NewRecord")
    ∷ (128, "Stats")
    ∷ (129, "GlobalLB")
    ∷ (130, "FriendsLB")
    ∷ (131, "GlobalOverview")
    ∷ (132, "Top3")
    ∷ (133, "MyRank")
    ∷ (134, "PlayersPB")
    ∷ (135, "Donations")
    ∷ (136, "GfmDonations")
    ∷ (137, "TwitchName")
    ∷ (138, "UsersProfile")
    ∷ (139, "YourPreferences")
    ∷ (143, "PlayersSpecInfo")
    ∷ (192, "MapOverview")
    ∷ (193, "MapLB")
    ∷ (194, "MapLivePlayers")
    ∷ (195, "MapRank")
    ∷ (208, "MinigameLB")
    ∷ (209, "MinigameRank")
    ∷ (210, "MinigameList")
    ∷ (211, "CollectibleList")
    ∷ (212, "CollectibleMine")
    ∷ (213, "HatsMine")
    ∷ (214, "HatsOnMap")
    ∷ (215, "HatsOnMapUpdate")
    ∷ (253, "TaskResponse")
    ∷ (252, "TaskResponseJson")
    ∷ (254, "SecretAssets")
    ∷ []
