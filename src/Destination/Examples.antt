-- ===== src/Destination/Examples.antt =====
-- A witness for `check_destination` of src/megabasterd_cli/proxy/connect_proxy.py.
use mega_basterd_cli.Prelude.{true, false, ◌⊎◌, ◌≡◌, refl, none, codes}
use mega_basterd_cli.Destination.{check_destination, behind_dot}
use mega_basterd_cli.Destination.Mega.{IsMegaHost, IsMegaPort, check_destination-IsMegaHost}

cdn_allowed : check_destination "gfs1.Mega.co.nz" 80 false false ≡ none
unfolding check_destination behind_dot
cdn_allowed = refl

check_destination-IsMegaHost_example :
    IsMegaHost (codes "gfs1.Mega.co.nz") × ((false ≡ true) ⊎ IsMegaPort 80 false)
check_destination-IsMegaHost_example =
    check_destination-IsMegaHost "gfs1.Mega.co.nz" 80 false false cdn_allowed
