-- ===== src/Mmsi/Countries.antt =====
-- The map `MMSI::m_mid` of src/mmsi.cpp, from maritime identification digits to countries: its first half.
use Prim.Native.String.{String}
use Prim.Native.Nat.{ℕ}
use mathlib.Core.List.{List, [], ◌∷◌}

abbrev pub mid_2xx : List (ℕ × String)
mid_2xx =
    (201, "albania")
    ∷ (202, "andorra")
    ∷ (203, "austria")
    ∷ (204, "portugal")
    ∷ (205, "belgium")
    ∷ (206, "belarus")
    ∷ (207, "bulgaria")
    ∷ (208, "vatican_city")
    ∷ (209, "cyprus")
    ∷ (210, "cyprus")
    ∷ (211, "germany")
    ∷ (212, "cyprus")
    ∷ (213, "georgia")
    ∷ (214, "moldova")
    ∷ (215, "malta")
    ∷ (216, "armenia")
    ∷ (218, "germany")
    ∷ (219, "denmark")
    ∷ (220, "denmark")
    ∷ (224, "spain")
    ∷ (225, "spain")
    ∷ (226, "france")
    ∷ (227, "france")
    ∷ (228, "france")
    ∷ (229, "malta")
    ∷ (230, "finland")
    ∷ (231, "denmark")
    ∷ (232, "united_kingdom")
    ∷ (233, "united_kingdom")
    ∷ (234, "united_kingdom")
    ∷ (235, "united_kingdom")
    ∷ (236, "united_kingdom")
    ∷ (237, "greece")
    ∷ (238, "croatia")
    ∷ (239, "greece")
    ∷ (240, "greece")
    ∷ (241, "greece")
    ∷ (242, "morocco")
    ∷ (243, "hungary")
    ∷ (244, "netherlands")
    ∷ (245, "netherlands")
    ∷ (246, "netherlands")
    ∷ (247, "italy")
    ∷ (248, "malta")
    ∷ (249, "malta")
    ∷ (250, "ireland")
    ∷ (251, "iceland")
    ∷ (252, "liechtenstein")
    ∷ (253, "luxembourg")
    ∷ (254, "monaco")
    ∷ (255, "portugal")
    ∷ (256, "malta")
    ∷ (257, "norway")
    ∷ (258, "norway")
    ∷ (259, "norway")
    ∷ (261, "poland")
    ∷ (262, "montenegro")
    ∷ (263, "portugal")
    ∷ (264, "romania")
    ∷ (265, "sweden")
    ∷ (266, "sweden")
    ∷ (267, "slovakia")
    ∷ (268, "san_marino")
    ∷ (269, "switzerland")
    ∷ (270, "czech_republic")
    ∷ (271, "turkey")
    ∷ (272, "ukraine")
    ∷ (273, "russia")
    ∷ (274, "macedonia")
    ∷ (275, "latvia")
    ∷ (276, "estonia")
    ∷ (277, "slovenia")
    ∷ (279, "serbia")
    ∷ []

abbrev pub mid_3xx : List (ℕ × String)
mid_3xx =
    (301, "united_kingdom")
    ∷ (303, "united_states")
    ∷ (304, "antigua_and_barbuda")
    ∷ (305, "antigua_and_barbuda")
    ∷ (306, "netherlands")
    ∷ (307, "netherlands")
    ∷ (308, "bahamas")
    ∷ (309, "bahamas")
    ∷ (310, "bermuda")
    ∷ (311, "bahamas")
    ∷ (312, "belize")
    ∷ (314, "barbados")
    ∷ (316, "canada")
    ∷ (319, "cayman_isles")
    ∷ (321, "costa_rica")
    ∷ (323, "cuba")
    ∷ (325, "dominica")
    ∷ (327, "dominican_republic")
    ∷ (329, "france")
    ∷ (330, "grenada")
    ∷ (331, "denmark")
    ∷ (332, "guatemala")
    ∷ (334, "honduras")
    ∷ (336, "haiti")
    ∷ (338, "united_states")
    ∷ (339, "jamaica")
    ∷ (341, "st_kitts_and_nevis")
    ∷ (343, "st_lucia")
    ∷ (345, "mexico")
    ∷ (347, "france")
    ∷ (348, "united_kingdom")
    ∷ (350, "nicaragua")
    ∷ (351, "panama")
    ∷ (352, "panama")
    ∷ (353, "panama")
    ∷ (354, "panama")
    ∷ (355, "panama")
    ∷ (356, "panama")
    ∷ (357, "panama")
    ∷ (358, "united_states")
    ∷ (359, "el_salvador")
    ∷ (361, "france")
    ∷ (362, "trinidad_and_tobago")
    ∷ (364, "turks_and_caicos")
    ∷ (366, "united_states")
    ∷ (367, "united_states")
    ∷ (368, "united_states")
    ∷ (369, "united_states")
    ∷ (370, "panama")
    ∷ (371, "panama")
    ∷ (372, "panama")
    ∷ (373, "panama")
    ∷ (374, "panama")
    ∷ (375, "st_vincent")
    ∷ (376, "st_vincent")
    ∷ (377, "st_vincent")
    ∷ (378, "virgin_isles")
    ∷ []
