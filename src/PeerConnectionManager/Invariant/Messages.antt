-- ===== src/PeerConnectionManager/Invariant/Messages.antt =====
-- The messages of the media servers and the timers of the statistics keep the invariant.
use frame_oldbackend_public.Prelude.{
  Bool, true, false, inl, inr, Option, none, some, List, [], ◌∷◌, if◌then◌else◌, Option-cases, ℕ,
}
use frame_oldbackend_public.Types.{
  Json, ipc_forward, ipc_stats, NetSocket, ParseMessages, RelayMessage, register_movement_server,
  created_movement_server, register_media_server, store_pipe_relay, connect_pipe_relay,
  create_relay_producer, created_relay_producer, server_load, other,
}
use frame_oldbackend_public.State.{State, emit}
use frame_oldbackend_public.SignalRouter.Servers.{ServerPool}
use frame_oldbackend_public.SignalRouter.Kinds.{Kind}
use frame_oldbackend_public.SignalRouter.Receive.{
  NewConsumers, in_mode, media_mode, load_mode, connect_pipe, on_relay, on_communication,
  on_message,
}
use frame_oldbackend_public.PeerConnectionManager.Command.{send_stats, stop_stats, fire_timer}
use frame_oldbackend_public.Prelude.Timers.{without_timer, is_set}
use frame_oldbackend_public.PeerConnectionManager.Invariant.Base.{Inv, emit-Inv, with_router-Inv}

in_mode-Inv :
    (k : Option Kind) (f : ServerPool → ServerPool) (s : State) → Inv s → Inv (in_mode k f s)
in_mode-Inv none f s v = v
in_mode-Inv (some k) f s v = with_router-Inv _ s v

on_relay-Inv :
    (nc : NewConsumers) (c : NetSocket) (parsed : ParseMessages) (m : RelayMessage) (s : State)
    → Inv s
    → Inv (on_relay nc c parsed m s)
unfolding on_relay
on_relay-Inv nc c parsed (register_movement_server mode region) s v = with_router-Inv _ s v
on_relay-Inv nc c parsed (created_movement_server domain) s v = v
on_relay-Inv nc c parsed (register_media_server mode region) s v =
    in_mode-Inv (media_mode mode) _ s v
on_relay-Inv nc c parsed (store_pipe_relay route egress_id details) s v =
    emit-Inv _ _ (with_router-Inv _ s v)
on_relay-Inv nc c parsed (connect_pipe_relay route out details) s v =
    elim (Option-cases (connect_pipe parsed.node route out s.router.pipes)) [
      | inl e ↦ rw (e, on_relay) v
      | inr (found, e) ↦ rw (e, on_relay) (emit-Inv _ _ (with_router-Inv _ s v))
    ]
on_relay-Inv nc c parsed (create_relay_producer egress_id details) s v = emit-Inv _ s v
on_relay-Inv nc c parsed (created_relay_producer peer kind label details) s v =
    elim (Option-cases (nc peer kind label s)) [
      | inl e ↦ rw (e, on_relay) v
      | inr (messages, e) ↦ rw (e, on_relay) (emit-Inv _ s v)
    ]
on_relay-Inv nc c parsed (server_load mode region load) s v = in_mode-Inv (load_mode mode) _ s v
on_relay-Inv nc c parsed (other details) s v = v

-- Whichever branch is taken.
if-Inv : (b : Bool) (s t : State) → Inv s → Inv t → Inv (if b then s else t)
if-Inv true s t v w = v
if-Inv false s t v w = w

on_communication-Inv :
    (parsed : ParseMessages) (s : State) → Inv s → Inv (on_communication parsed s)
unfolding on_communication
on_communication-Inv parsed s v = go parsed.communication
  where
    go :
        (o : Option Json)
        → Inv (elim o [
          | none ↦ s
          | some _ ↦ if s.has_ipc then emit (ipc_forward parsed ∷ []) s else s
        ])
    go none = v
    go (some _) = if-Inv s.has_ipc (emit (ipc_forward parsed ∷ []) s) s (emit-Inv _ s v) v

pub on_message-Inv :
    (nc : NewConsumers) (c : NetSocket) (message : Option ParseMessages) (s : State)
    → Inv s
    → Inv (on_message nc c message s)
unfolding on_message
on_message-Inv nc c none s v = v
on_message-Inv nc c (some parsed) s v = go parsed.message
  where
    go :
        (o : Option RelayMessage)
        → Inv (elim o [ none ↦ on_communication parsed s | some m ↦ on_relay nc c parsed m s ])
    go none = on_communication-Inv parsed s v
    go (some m) = on_relay-Inv nc c parsed m s v

timers-Inv :
    (s : State) (timers : List ℕ) (t : Option ℕ) (n : ℕ)
    → Inv s
    → Inv (record s { timers = timers; stats_timeout = t; next_timer = n })
timers-Inv s timers t n v = record {
  peers = v.peers;
  distinct = v.distinct;
  rooms = v.rooms;
  counts = v.counts;
}

pub send_stats-Inv : (s : State) → Inv s → Inv (send_stats s)
unfolding send_stats
send_stats-Inv s v =
    timers-Inv _ _ _ _ (if-Inv s.has_ipc (emit (ipc_stats s.peers ∷ []) s) s (emit-Inv _ s v) v)

pub stop_stats-Inv : (s : State) → Inv s → Inv (stop_stats s)
unfolding stop_stats
stop_stats-Inv s v = go s.stats_timeout
  where
    go :
        (o : Option ℕ)
        → Inv (elim o [ none ↦ s | some t ↦ record s { timers = without_timer t s.timers } ])
    go none = v
    go (some t) = timers-Inv s _ _ _ v

pub fire_timer-Inv : (t : ℕ) (s : State) → Inv s → Inv (fire_timer t s)
unfolding fire_timer
fire_timer-Inv t s v =
    if-Inv (is_set t s.timers) (send_stats (record s { timers = without_timer t s.timers })) s
      (send_stats-Inv _ (timers-Inv s _ _ _ v)) v
