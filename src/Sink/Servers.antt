-- ===== src/Sink/Servers.antt =====
-- Which local servers run after a trace of effects.
use horizon_cast.Base.{◌≡◌, List, [], ◌∷◌, if◌then◌else◌, arith}
use horizon_cast.Base.Text.{Text, same}
use horizon_cast.Base.Text.Cut.{same_iff}
use horizon_cast.Net.World.{
  Trace, posted, fetched, file_served, file_stopped, live_served, live_stopped, published,
  capture_spawned,
}

-- Without its first occurrence.
unfoldable pub remove : Text → List Text → List Text
remove url [] = []
remove url (u ∷ us) = let rest = u ∷ remove url us in if same url u then us else rest

-- The URLs at which a server listens, the latest first.
unfoldable pub running : Trace → List Text
running [] = []
running (file_served url ∷ tr) = url ∷ running tr
running (live_served url ∷ tr) = url ∷ running tr
running (file_stopped url ∷ tr) = remove url (running tr)
running (live_stopped url ∷ tr) = remove url (running tr)
running (posted url header body ∷ tr) = running tr
running (fetched url ∷ tr) = running tr
running (published url chunk ∷ tr) = running tr
running (capture_spawned fps bitrate_kbps ∷ tr) = running tr

pub remove_head : (url : Text) (us : List Text) → remove url (url ∷ us) ≡ us
unfolding remove
remove_head url us = ground (arith, same_iff url url)
