-- ===== src/Examples/Access.antt =====
-- Headers of the control API, under the theorem on its token.
use blitzpool_rental_proxy.Prelude.{Text, ◌≡◌, ◌≢◌, ◌↔◌, refl, some, [], ok, err, Option, arith}
use blitzpool_rental_proxy.Prelude.Strings.{codes, trim}
use blitzpool_rental_proxy.Api.Access.{require_bearer, presented, unauthorized, not_configured}
use blitzpool_rental_proxy.Api.Access.Equal.{Presents, require_bearer-Presents}

abbrev secret : Text
secret = codes "tok"

abbrev shown_header : Option Text
shown_header = some (codes "Bearer  tok ")

require_bearer-Presents_example :
    (require_bearer secret shown_header ≡ ok tt) ↔ ((secret ≢ []) × Presents secret shown_header)
unfolding presented trim
require_bearer-Presents_example =
    require_bearer-Presents secret shown_header (omega arith) (omega arith)

let_through : require_bearer secret shown_header ≡ ok tt
unfolding require_bearer trim
let_through = refl

turned_away : require_bearer secret (some (codes "Bearer tak")) ≡ err unauthorized
unfolding require_bearer trim
turned_away = refl

closed : require_bearer [] shown_header ≡ err not_configured
unfolding require_bearer trim
closed = refl
