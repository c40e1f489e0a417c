-- ===== src/Router/Request/Tables.antt =====
-- The codes and the names of src/router.rs, `Request`, side by side.
use dd2_server.Prelude.{ℕ, [], ◌∷◌, String}
use dd2_server.Prelude.HashMap.{HashMap}

-- The discriminants in the declaration of the enum, by the names in the logs.
abbrev pub discriminants : HashMap String ℕ
discriminants =
    ("Authenticate", 1)
    ∷ ("ResumeSession", 2)
    ∷ ("ReportContext", 3)
    ∷ ("ReportGameCamNod", 4)
    ∷ ("Ping", 8)
    ∷ ("ReportVehicleState", 32)
    ∷ ("ReportRespawn", 33)
    ∷ ("ReportFinish", 34)
    ∷ ("ReportFallStart", 35)
    ∷ ("ReportFallEnd", 36)
    ∷ ("ReportStats", 37)
    ∷ ("ReportPBHeight", 39)
    ∷ ("ReportPlayerColor", 40)
    ∷ ("ReportTwitch", 41)
    ∷ ("DowngradeStats", 42)
    ∷ ("ReportMapCurrPos", 64)
    ∷ ("ReportCustomMapAuxSpec", 65)
    ∷ ("DeleteCustomMapAuxSpec", 66)
    ∷ ("ListCustomMapAuxSpecs", 67)
    ∷ ("ReportMapStats", 68)
    ∷ ("ReportMinigameAttempt", 80)
    ∷ ("ReportMinigameMap", 81)
    ∷ ("ReportCollectibleUnlock", 82)
    ∷ ("ReportCollectibleCollect", 83)
    ∷ ("ReportHatUnlock", 84)
    ∷ ("ReportHatEquip", 85)
    ∷ ("GetMyStats", 128)
    ∷ ("GetGlobalLB", 129)
    ∷ ("GetFriendsLB", 130)
    ∷ ("GetGlobalOverview", 131)
    ∷ ("GetServerStats", 132)
    ∷ ("GetMyRank", 133)
    ∷ ("GetPlayersPb", 134)
    ∷ ("GetDonations", 135)
    ∷ ("GetGfmDonations", 136)
    ∷ ("GetTwitch", 137)
    ∷ ("GetMyProfile", 138)
    ∷ ("SetMyProfile", 139)
    ∷ ("GetMyPreferences", 140)
    ∷ ("SetMyPreferences", 141)
    ∷ ("GetUsersProfile", 142)
    ∷ ("GetPlayersSpecInfo", 143)
    ∷ ("GetMapOverview", 192)
    ∷ ("GetMapLB", 193)
    ∷ ("GetMapLive", 194)
    ∷ ("GetMapMyRank", 195)
    ∷ ("GetMapRank", 196)
    ∷ ("GetMinigameLB", 208)
    ∷ ("GetMinigameMyRank", 209)
    ∷ ("GetMinigameList", 210)
    ∷ ("GetCollectibleList", 211)
    ∷ ("GetCollectibleMine", 212)
    ∷ ("GetHatsMine", 213)
    ∷ ("GetHatsOnMap", 214)
    ∷ ("GetSecretAssets", 254)
    ∷ ("StressMe", 255)
    ∷ []

-- The same, read backwards.
abbrev pub names : HashMap ℕ String
names =
    (1, "Authenticate")
    ∷ (2, "ResumeSession")
    ∷ (3, "ReportContext")
    ∷ (4, "ReportGameCamNod")
    ∷ (8, "Ping")
    ∷ (32, "ReportVehicleState")
    ∷ (33, "ReportRespawn")
    ∷ (34, "ReportFinish")
    ∷ (35, "ReportFallStart")
    ∷ (36, "ReportFallEnd")
    ∷ (37, "ReportStats")
    ∷ (39, "ReportPBHeight")
    ∷ (40, "ReportPlayerColor")
    ∷ (41, "ReportTwitch")
    ∷ (42, "DowngradeStats")
    ∷ (64, "ReportMapCurrPos")
    ∷ (65, "ReportCustomMapAuxSpec")
    ∷ (66, "DeleteCustomMapAuxSpec")
    ∷ (67, "ListCustomMapAuxSpecs")
    ∷ (68, "ReportMapStats")
    ∷ (80, "ReportMinigameAttempt")
    ∷ (81, "ReportMinigameMap")
    ∷ (82, "ReportCollectibleUnlock")
    ∷ (83, "ReportCollectibleCollect")
    ∷ (84, "ReportHatUnlock")
    ∷ (85, "ReportHatEquip")
    ∷ (128, "GetMyStats")
    ∷ (129, "GetGlobalLB")
    ∷ (130, "GetFriendsLB")
    ∷ (131, "GetGlobalOverview")
    ∷ (132, "GetServerStats")
    ∷ (133, "GetMyRank")
    ∷ (134, "GetPlayersPb")
    ∷ (135, "GetDonations")
    ∷ (136, "GetGfmDonations")
    ∷ (137, "GetTwitch")
    ∷ (138, "GetMyProfile")
    ∷ (139, "SetMyProfile")
    ∷ (140, "GetMyPreferences")
    ∷ (141, "SetMyPreferences")
    ∷ (142, "GetUsersProfile")
    ∷ (143, "GetPlayersSpecInfo")
    ∷ (192, "GetMapOverview")
    ∷ (193, "GetMapLB")
    ∷ (194, "GetMapLive")
    ∷ (195, "GetMapMyRank")
    ∷ (196, "GetMapRank")
    ∷ (208, "GetMinigameLB")
    ∷ (209, "GetMinigameMyRank")
    ∷ (210, "GetMinigameList")
    ∷ (211, "GetCollectibleList")
    ∷ (212, "GetCollectibleMine")
    ∷ (213, "GetHatsMine")
    ∷ (214, "GetHatsOnMap")
    ∷ (254, "GetSecretAssets")
    ∷ (255, "StressMe")
    ∷ []
