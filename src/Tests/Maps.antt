-- ===== src/Tests/Maps.antt =====
-- The maps of one user.
use sandals.Prelude.{ℕ, ◌≡◌, refl, [], codes}
use sandals.Os.Returning.{Returning}
use sandals.Request.{default_request}
use sandals.Response.{decimal}
use sandals.Users.{setgroups_path, uidmap_path, gidmap_path, id_map, map_user_and_group}
use sandals.Users.Maps.{wrote_file, map_user_and_group-Returning}
use sandals.Tests.Kernels.{obedient}

map_text : id_map 0 1000 ≡ codes "0 1000 1"
unfolding decimal
map_text = refl

map_user_and_group-Returning_example :
    Returning
      (λ _ t'.
        (f : ℕ) × (g : ℕ) × (h : ℕ) × (t'
          ≡ wrote_file h gidmap_path (id_map 0 1001) (
              wrote_file g uidmap_path
                (id_map 0 1000)
                (wrote_file f setgroups_path (codes "deny") []))))
      (map_user_and_group (obedient []) 1 100 1000 1001 default_request [])
map_user_and_group-Returning_example =
    map_user_and_group-Returning (obedient []) 1 100 1000 1001 default_request []
