-- ===== src/Zones/Facts.antt =====
-- pkg/zones/zone.go: the access rules as an order, and the default of a resource.
use moon_hub.Base.{
  ℕ, ◌≤◌, ◌≡◌, refl, String, true, arith, lookup, lookup-insert, List, [], ◌∷◌, if◌then◌else◌,
  str_eq,
}
use moon_hub.Zones.{
  Zone, privacy, shared, public, Relationship, friend, owner, AccessLevel, read, allow, ZoneManager,
  new_zone_manager, set_resource_zone, get_resource_zone,
}

abbrev pub trust : Relationship → ℕ
trust owner = 2
trust friend = 1
trust _ = 0

abbrev pub openness : Zone → ℕ
openness public = 3
openness shared = 2
openness privacy = 1
openness Zone.other = 0

-- More trust and a more open zone never lose access, and writing never is allowed where reading
-- is not.
pub allow_mono :
    (z z' : Zone) (r r' : Relationship) (a : AccessLevel)
    → openness z ≤ openness z'
    → trust r ≤ trust r'
    → allow z r a ≡ true
    → (allow z' r' a ≡ true) × (allow z' r' read ≡ true)
unfolding allow
allow_mono z z' r r' a h k e = ground arith

-- A history of assignments, the newest first.
pub assign : List (String × Zone) → ZoneManager
assign [] = new_zone_manager
assign ((res, z) ∷ h) = set_resource_zone res z (assign h)

abbrev pub latest : String → List (String × Zone) → Zone
latest res [] = privacy
latest res ((k, z) ∷ h) = let rest = latest res h in if str_eq k res then z else rest

-- A resource is in the zone that was assigned to it last, and in the private zone if none was.
pub get_resource_zone-assign :
    (res : String) (h : List (String × Zone)) → get_resource_zone res (assign h) ≡ latest res h
unfolding get_resource_zone assign new_zone_manager set_resource_zone lookup
get_resource_zone-assign res [] = refl
get_resource_zone-assign res ((k, z) ∷ h) =
    ground (arith, lookup-insert k res z (assign h).resources, get_resource_zone-assign res h)
