-- ===== src/Mmsi/MoreCountries.antt =====
-- The map `MMSI::m_mid` of src/mmsi.cpp, from maritime identification digits to countries: its second half.
use Prim.Native.String.{String}
use Prim.Native.Nat.{ℕ}
use mathlib.Core.List.{List, [], ◌∷◌}

abbrev pub mid_4xx : List (ℕ × String)
mid_4xx =
    (401, "afghanistan")
    ∷ (403, "saudi_arabia")
    ∷ (405, "bangladesh")
    ∷ (408, "bahrain")
    ∷ (410, "bhutan")
    ∷ (412, "china")
    ∷ (413, "china")
    ∷ (414, "china")
    ∷ (416, "taiwan")
    ∷ (417, "sri_lanka")
    ∷ (419, "india")
    ∷ (422, "iran")
    ∷ (423, "azerbaijan")
    ∷ (425, "iraq")
    ∷ (428, "israel")
    ∷ (431, "japan")
    ∷ (432, "japan")
    ∷ (434, "turkmenistan")
    ∷ (436, "kazakhstan")
    ∷ (437, "uzbekistan")
    ∷ (438, "jordan")
    ∷ (440, "korea_south")
    ∷ (441, "korea_south")
    ∷ (443, "palestine")
    ∷ (445, "korea_north")
    ∷ (447, "kuwait")
    ∷ (450, "lebanon")
    ∷ (451, "kyrgyzstan")
    ∷ (453, "china")
    ∷ (455, "maldives")
    ∷ (457, "mongolia")
    ∷ (459, "nepal")
    ∷ (461, "oman")
    ∷ (463, "pakistan")
    ∷ (466, "qatar")
    ∷ (468, "syria")
    ∷ (470, "united_arab_emirates")
    ∷ (471, "united_arab_emirates")
    ∷ (472, "tajikistan")
    ∷ (473, "yemen")
    ∷ (474, "yemen")
    ∷ (477, "hong_kong")
    ∷ (478, "bosnia")
    ∷ []

abbrev pub mid_5xx : List (ℕ × String)
mid_5xx =
    (501, "france")
    ∷ (503, "australia")
    ∷ (506, "myanmar")
    ∷ (508, "brunei")
    ∷ (510, "micronesia")
    ∷ (511, "palau")
    ∷ (512, "new_zealand")
    ∷ (514, "cambodia")
    ∷ (515, "cambodia")
    ∷ (516, "australia")
    ∷ (518, "cook_islands")
    ∷ (520, "fiji")
    ∷ (523, "australia")
    ∷ (525, "indonesia")
    ∷ (529, "kiribati")
    ∷ (531, "laos")
    ∷ (533, "malaysia")
    ∷ (536, "united_states")
    ∷ (538, "marshall islands")
    ∷ (540, "france")
    ∷ (542, "new_zealand")
    ∷ (544, "nauru")
    ∷ (546, "france")
    ∷ (548, "philippines")
    ∷ (550, "timorleste")
    ∷ (553, "papua_new_guinea")
    ∷ (555, "united_kingdom")
    ∷ (557, "solomon_islands")
    ∷ (559, "united_states")
    ∷ (561, "samoa")
    ∷ (563, "singapore")
    ∷ (564, "singapore")
    ∷ (565, "singapore")
    ∷ (566, "singapore")
    ∷ (567, "thailand")
    ∷ (570, "tonga")
    ∷ (572, "tuvalu")
    ∷ (574, "vietnam")
    ∷ (576, "vanuatu")
    ∷ (577, "vanuatu")
    ∷ (578, "france")
    ∷ []

abbrev pub mid_6xx : List (ℕ × String)
mid_6xx =
    (601, "south_africa")
    ∷ (603, "angola")
    ∷ (605, "algeria")
    ∷ (607, "france")
    ∷ (608, "united_kingdom")
    ∷ (609, "burundi")
    ∷ (610, "benin")
    ∷ (611, "botswana")
    ∷ (612, "central_african_republic")
    ∷ (613, "cameroun")
    ∷ (615, "congoroc")
    ∷ (616, "comoros")
    ∷ (617, "cape_verde")
    ∷ (618, "france")
    ∷ (619, "ivory_coast")
    ∷ (620, "comoros")
    ∷ (621, "djibouti")
    ∷ (622, "egypt")
    ∷ (624, "ethiopia")
    ∷ (625, "eritrea")
    ∷ (626, "gabon")
    ∷ (627, "ghana")
    ∷ (629, "gambia")
    ∷ (630, "guinea_bissau")
    ∷ (631, "equatorial_guinea")
    ∷ (632, "guinea")
    ∷ (633, "burkina_faso")
    ∷ (634, "kenya")
    ∷ (635, "france")
    ∷ (636, "liberia")
    ∷ (637, "liberia")
    ∷ (638, "south_sudan")
    ∷ (642, "libya")
    ∷ (644, "lesotho")
    ∷ (645, "mauritius")
    ∷ (647, "madagascar")
    ∷ (649, "mali")
    ∷ (650, "mozambique")
    ∷ (654, "mauritania")
    ∷ (655, "malawi")
    ∷ (656, "niger")
    ∷ (657, "nigeria")
    ∷ (659, "namibia")
    ∷ (660, "france")
    ∷ (661, "rwanda")
    ∷ (662, "sudan")
    ∷ (663, "senegal")
    ∷ (664, "seychelles")
    ∷ (665, "united_kingdom")
    ∷ (666, "somalia")
    ∷ (667, "sierra_leone")
    ∷ (668, "sao_tome_principe")
    ∷ (669, "swaziland")
    ∷ (670, "chad")
    ∷ (671, "togo")
    ∷ (672, "tunisia")
    ∷ (674, "tanzania")
    ∷ (675, "uganda")
    ∷ (676, "congodrc")
    ∷ (677, "tanzania")
    ∷ (678, "zambia")
    ∷ (679, "zimbabwe")
    ∷ []

abbrev pub mid_7xx : List (ℕ × String)
mid_7xx =
    (701, "argentina")
    ∷ (710, "brazil")
    ∷ (720, "bolivia")
    ∷ (725, "chile")
    ∷ (730, "colombia")
    ∷ (735, "ecuador")
    ∷ (740, "falkland_isles")
    ∷ (745, "france")
    ∷ (750, "guyana")
    ∷ (755, "paraguay")
    ∷ (760, "peru")
    ∷ (765, "suriname")
    ∷ (770, "uruguay")
    ∷ (775, "venezuela")
    ∷ []
