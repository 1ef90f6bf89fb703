-- ===== src/Session/Tests.antt =====
-- Runs of two clients with the api server between them.
use frame_oldbackend_public.Prelude.{some, [], ◌∷◌, ◌≡◌, refl, inl, arith, eq_iff, not_empty}
use frame_oldbackend_public.Prelude.Lists.{length, drop}
use frame_oldbackend_public.Prelude.Maps.{lookup}
use frame_oldbackend_public.Types.{Peer}
use frame_oldbackend_public.SignalRouter.Servers.{get_server}
use frame_oldbackend_public.SignalRouter.Regions.{resolve_region}
use frame_oldbackend_public.SignalRouter.Router.{get_ingress, get_egress, get_movement}
use frame_oldbackend_public.PeerConnectionManager.Tests.{ready, full, full-Inv, guest, host}
use frame_oldbackend_public.Avatar.State.{Avatar, new_avatar}
use frame_oldbackend_public.Avatar.Leaving.{leave_frame}
use frame_oldbackend_public.Avatar.Events.{left_avatar}
use frame_oldbackend_public.Avatar.Participation.{on_websocket_open, enter_frame}
use frame_oldbackend_public.Avatar.Tests.{in_room, moving, speaking, to_lobby}
use frame_oldbackend_public.Session.Messages.{requests_in, replies_to, serve, deliver, exchange}
use frame_oldbackend_public.Session.Parting.{IsParted}
use frame_oldbackend_public.Session.Farewell.{leave_frame-parts}
use frame_oldbackend_public.Session.Entering.{enter_frame-enters}

-- The client of the first peer, before and after it leaves the lounge.
abbrev guest_client : Avatar
guest_client = record in_room { avatar_id = "p1" }

abbrev gone_client : Avatar
unfolding leave_frame
gone_client = left_avatar (leave_frame "lounge" to_lobby guest_client)

-- The client of the second peer, which hears and follows the first one.
abbrev host_client : Avatar
host_client = record in_room {
  avatar_id = "p2";
  audio_consumers = ("p1", speaking) ∷ [];
  movement_consumers = ("p1", moving ∷ []) ∷ [];
}

leave_frame-parts_example :
    let s' =
      serve "" "w1" (requests_in (drop (length guest_client.trace) gone_client.trace)) full in
    let replies = replies_to "w2" (drop (length full.trace) s'.trace) in
    IsParted "p1" speaking (deliver (λ c. "") replies host_client)
unfolding gone_client leave_frame lookup
leave_frame-parts_example =
    leave_frame-parts (λ c. "") "" "w1" "p2" "lounge" to_lobby guest_client gone_client full guest
      host _ host_client speaking refl refl full-Inv refl refl refl refl refl
      (ground (arith, eq_iff "p2" "p1")) ((λ e. ground arith), inl refl)

enter_frame-enters_example :
    let first =
      exchange (λ c. "") "p9" "w9" (on_websocket_open "JFK50-P1") (new_avatar "lounge") ready in
    let second = exchange (λ c. "") "" "w9" (enter_frame "lounge") first.0 first.1 in
    (peer : Peer) × (lookup first.0.avatar_id second.1.peers ≡ some peer)
    × (peer.transport_signal ≡ "w9")
    × (peer.room ≡ some "lounge")
    × (peer.ingress ≡ some "i1")
    × (peer.egress ≡ some "e1")
unfolding get_ingress get_egress get_movement get_server resolve_region lookup
enter_frame-enters_example =
    enter_frame-enters (λ c. "") "p9" "" "w9" "JFK50-P1" "lounge" (new_avatar "lounge") ready "i1"
      "e1" (some "m1") refl refl refl refl (not_empty "i1" refl) (not_empty "e1" refl)
