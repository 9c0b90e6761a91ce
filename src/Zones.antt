-- ===== src/Zones.antt =====
-- pkg/zones/zone.go: data partitions and who may read or write in them. A Go value of one of the
-- three integer types that is no named constant is `other`.
pub mod Facts
use moon_hub.Base.{
  String, Bool, true, false, ◌||◌, Option, none, some, List, [], ◌∷◌, if◌then◌else◌, lookup, insert,
}

pub data Zone : Type 0 where
  privacy shared public other : Zone

pub data Relationship : Type 0 where
  unrelated friend owner other : Relationship

pub data AccessLevel : Type 0 where
  read write other : AccessLevel

abbrev pub is_owner : Relationship → Bool
is_owner owner = true
is_owner _ = false

abbrev pub is_read : AccessLevel → Bool
is_read read = true
is_read _ = false

unfoldable pub zone_string : Zone → String
zone_string privacy = "privacy"
zone_string shared = "shared"
zone_string public = "public"
zone_string Zone.other = "unknown"

abbrev allow_shared : Relationship → AccessLevel → Bool
allow_shared owner access = true
allow_shared friend access = is_read access
allow_shared _ access = false

unfoldable pub allow : Zone → Relationship → AccessLevel → Bool
allow privacy rel access = is_owner rel
allow shared rel access = allow_shared rel access
allow public rel access = is_read access || is_owner rel
allow Zone.other rel access = false

pub record ZoneManager : Type 0 where
  pub resources : List (String × Zone)

unfoldable pub new_zone_manager : ZoneManager
new_zone_manager = record { resources = [] }

unfoldable pub set_resource_zone : String → Zone → ZoneManager → ZoneManager
set_resource_zone resource zone zm = record { resources = insert resource zone zm.resources }

abbrev or_privacy : Option Zone → Zone
or_privacy none = privacy
or_privacy (some z) = z

unfoldable pub get_resource_zone : String → ZoneManager → Zone
get_resource_zone resource zm = or_privacy (lookup resource zm.resources)

unfoldable pub check_access : String → Relationship → AccessLevel → ZoneManager → Bool
unfolding get_resource_zone
check_access resource rel access zm = allow (get_resource_zone resource zm) rel access

abbrev zone_eq : Zone → Zone → Bool
zone_eq privacy privacy = true
zone_eq shared shared = true
zone_eq public public = true
zone_eq Zone.other Zone.other = true
zone_eq _ _ = false

unfoldable pub list_from : Zone → List (String × Zone) → List String
list_from zone [] = []
list_from zone ((res, z) ∷ m) =
    let rest = list_from zone m in if zone_eq z zone then res ∷ rest else rest

unfoldable pub list_resources : Zone → ZoneManager → List String
unfolding list_from
list_resources zone zm = list_from zone zm.resources
