-- ===== src/Avatar/Muting.antt =====
-- frame/webapp/core/avatar.ts: a peer whom the user has muted stays muted.
pub mod Untouched
pub mod Run
use frame_oldbackend_public.Prelude.{
  ℕ, Bool, true, false, Option, none, some, [], ◌∷◌, ◌≡◌, refl, arith, if◌then◌else◌, Bool-cases,
  Option-cases, inl, inr, ◌==◌, eq_iff,
}
use frame_oldbackend_public.Prelude.Maps.{Map, lookup, insert, lookup-insert}
use frame_oldbackend_public.Types.{Guid}
use frame_oldbackend_public.Avatar.State.{
  Handle, Consumer, Announcement, audio, video, movement, events, Announced, ConsumerOptions, Task,
  awaiting_connection, awaiting_transport, awaiting_consumer, awaiting_device, awaiting_ingress,
  awaiting_egress, awaiting_microphone, awaiting_webcam, awaiting_screen_audio,
  awaiting_screen_video, awaiting_media_id, awaiting_data_id, awaiting_producer,
  awaiting_movement_producer, awaiting_events_producer, Avatar,
}
use frame_oldbackend_public.Avatar.Consumers.{mute_peer}
use frame_oldbackend_public.Avatar.Tasks.{
  is_muted, save_microphone, next_announced, on_consumer, resume, resolve, reject, take_task,
  with_task,
}
use frame_oldbackend_public.Avatar.Media.{on_microphone, on_webcam}
use frame_oldbackend_public.Avatar.Muting.Untouched.{
  IsUntouched, join_loaded-IsUntouched, on_screen-IsUntouched, emit_events-IsUntouched,
  begin_sending-IsUntouched, get_announcements-IsUntouched, on_data_producer-IsUntouched,
  on_media_id-IsUntouched, on_data_id-IsUntouched,
}

-- Every consumer is paused exactly if its peer is muted.
abbrev Match : Map Consumer → Map Bool → Type 0
Match consumers states =
    (id : Guid) (c : Consumer) → lookup id consumers ≡ some c → c.paused ≡ is_muted id states

-- The microphone of every peer is paused exactly if its peer is muted.
abbrev pub AreMuted : Avatar → Type 0
AreMuted a =
    (id : Guid) (c : Consumer)
    → lookup id a.audio_consumers ≡ some c
    → c.paused ≡ is_muted id a.audio_consumer_state

pub IsUntouched-AreMuted : (a b : Avatar) → IsUntouched a b → AreMuted a → AreMuted b
IsUntouched-AreMuted a b same h id c e = rw (same.1) (h id c (rw (← same.0) e))

is_muted-insert :
    (peer_id id : Guid) (mute : Bool) (states : Map Bool)
    → is_muted id (insert peer_id mute states)
      ≡ (if peer_id == id then mute else is_muted id states)
unfolding is_muted
is_muted-insert peer_id id mute states = ground (arith, lookup-insert peer_id id mute states)

Match-mute :
    (peer_id : Guid) (mute : Bool) (consumers : Map Consumer) (states : Map Bool)
    → lookup peer_id consumers ≡ none
    → Match consumers states
    → Match consumers (insert peer_id mute states)
Match-mute peer_id mute consumers states none_yet h id c e =
    ground (arith, eq_iff peer_id id, h id c, is_muted-insert peer_id id mute states)

Match-insert :
    (peer_id : Guid) (d : Consumer) (consumers : Map Consumer) (states : Map Bool)
    → Match consumers states
    → Match (insert peer_id d consumers) (insert peer_id d.paused states)
Match-insert peer_id d consumers states h id c e = ground (
  arith,
  eq_iff peer_id id,
  h id c,
  is_muted-insert peer_id id d.paused states,
  lookup-insert peer_id id d consumers,
)

Match-new :
    (peer_id : Guid) (d : Consumer) (consumers : Map Consumer) (states : Map Bool)
    → d.paused ≡ is_muted peer_id states
    → Match consumers states
    → Match (insert peer_id d consumers) states
Match-new peer_id d consumers states p h id c e =
    ground (arith, eq_iff peer_id id, h id c, lookup-insert peer_id id d consumers)

pub mute_peer-AreMuted :
    (mute : Bool) (peer_id : Guid) (a : Avatar) → AreMuted a → AreMuted (mute_peer mute peer_id a)
unfolding mute_peer
mute_peer-AreMuted mute peer_id a h = elim (Option-cases (lookup peer_id a.audio_consumers)) [
  | inl e ↦ rw (mute_peer, e) (Match-mute peer_id mute a.audio_consumers a.audio_consumer_state e h)
  | inr (d, e) ↦
      rw (mute_peer, e)
        (Match-insert peer_id (record d { paused = mute }) a.audio_consumers a.audio_consumer_state
          h)
]

next_announced-IsUntouched :
    (kind : Announcement) (items : Announced) (a : Avatar)
    → IsUntouched a (next_announced kind items a)
next_announced-IsUntouched kind [] a = (refl, refl)
next_announced-IsUntouched kind (item ∷ items) a = (refl, refl)

save_microphone-AreMuted :
    (peer_id : Guid) (h : Handle) (a : Avatar) → AreMuted a → AreMuted (save_microphone peer_id h a)
unfolding insert is_muted
save_microphone-AreMuted peer_id h a muted =
    Match-new peer_id (record { handle = h; paused = is_muted peer_id a.audio_consumer_state })
      a.audio_consumers a.audio_consumer_state refl muted

on_consumer-AreMuted :
    (kind : Announcement) (peer_id : Guid) (o : ConsumerOptions) (h : Handle) (a : Avatar)
    → AreMuted a
    → AreMuted (on_consumer kind peer_id o h a)
unfolding on_consumer
on_consumer-AreMuted audio peer_id o h a muted = elim (Bool-cases (o.source == "microphone")) [
  | inl e ↦ rw (e, on_consumer, if◌then◌else◌) (save_microphone-AreMuted peer_id h a muted)
  | inr e ↦ IsUntouched-AreMuted a (on_consumer audio peer_id o h a) (ground arith) muted
]
on_consumer-AreMuted video peer_id o h a muted =
    IsUntouched-AreMuted a (on_consumer video peer_id o h a) (ground arith) muted
on_consumer-AreMuted movement peer_id o h a muted = muted
on_consumer-AreMuted events peer_id o h a muted = muted

-- A step that may stay away keeps the property.
abbrev pub Keeps : (Task → Avatar → Option Avatar) → Type 0
Keeps f = (t : Task) (a b : Avatar) → AreMuted a → f t a ≡ some b → AreMuted b

-- The step gives an avatar that is known.
as_given : (a b : Avatar) → AreMuted a → some a ≡ some b → AreMuted b
as_given a b h e = let same : a ≡ b = cc in rw (← same) h

pub resume-AreMuted : Keeps resume
unfolding resume
resume-AreMuted (awaiting_connection kind items) a b h e =
    IsUntouched-AreMuted a b (ground (arith, next_announced-IsUntouched kind items a)) h
resume-AreMuted (awaiting_transport kind []) a b h e = as_given a b h e
resume-AreMuted (awaiting_transport kind ((p, o) ∷ items)) a b h e =
    IsUntouched-AreMuted a b (ground arith) h
resume-AreMuted (awaiting_media_id source d) a b h e =
    IsUntouched-AreMuted a b (on_media_id-IsUntouched source d a b e) h
resume-AreMuted (awaiting_data_id label) a b h e =
    IsUntouched-AreMuted a b (on_data_id-IsUntouched label a b e) h
resume-AreMuted (awaiting_producer m w) a b h e =
    IsUntouched-AreMuted a b
      (ground (arith, begin_sending-IsUntouched m w (record a { lobby = false }))) h
resume-AreMuted (awaiting_consumer k p o i) a b h e = cc
resume-AreMuted (awaiting_device i g m s) a b h e = cc
resume-AreMuted awaiting_ingress a b h e = cc
resume-AreMuted (awaiting_egress i c) a b h e = cc
resume-AreMuted awaiting_microphone a b h e = cc
resume-AreMuted awaiting_webcam a b h e = cc
resume-AreMuted (awaiting_screen_audio d) a b h e = cc
resume-AreMuted (awaiting_screen_video d) a b h e = cc
resume-AreMuted (awaiting_movement_producer w) a b h e = cc
resume-AreMuted (awaiting_events_producer w) a b h e = cc

pub resolve-AreMuted : (object : Handle) → Keeps (λ t. resolve t object)
unfolding resolve on_microphone on_webcam
resolve-AreMuted c (awaiting_consumer kind p o items) a b h e =
    let a1 = on_consumer kind p o c a in
    as_given (next_announced kind items a1) b
      (IsUntouched-AreMuted a1 (next_announced kind items a1)
        (next_announced-IsUntouched kind items a1) (on_consumer-AreMuted kind p o c a h))
      e
resolve-AreMuted c (awaiting_device i g m s) a b h e =
    IsUntouched-AreMuted a b
      (ground (arith, join_loaded-IsUntouched i g m s (record a { device_loaded = true }))) h
resolve-AreMuted c awaiting_ingress a b h e = IsUntouched-AreMuted a b (ground arith) h
resolve-AreMuted c (awaiting_egress i n) a b h e = IsUntouched-AreMuted a b (ground arith) h
resolve-AreMuted c awaiting_microphone a b h e = IsUntouched-AreMuted a b (ground arith) h
resolve-AreMuted c awaiting_webcam a b h e = IsUntouched-AreMuted a b (ground arith) h
resolve-AreMuted c (awaiting_screen_audio d) a b h e =
    IsUntouched-AreMuted a b (ground (arith, on_screen-IsUntouched d c a)) h
resolve-AreMuted c (awaiting_screen_video d) a b h e =
    IsUntouched-AreMuted a b (ground (arith, on_screen-IsUntouched d c a)) h
resolve-AreMuted c (awaiting_movement_producer w) a b h e =
    IsUntouched-AreMuted a b (ground (arith, on_data_producer-IsUntouched w c a)) h
resolve-AreMuted c (awaiting_events_producer w) a b h e =
    IsUntouched-AreMuted a b (ground (arith, on_data_producer-IsUntouched w c a)) h
resolve-AreMuted c (awaiting_connection kind items) a b h e = cc
resolve-AreMuted c (awaiting_transport kind items) a b h e = cc
resolve-AreMuted c (awaiting_media_id source d) a b h e = cc
resolve-AreMuted c (awaiting_data_id label) a b h e = cc
resolve-AreMuted c (awaiting_producer m w) a b h e = cc

pub reject-AreMuted : Keeps reject
unfolding reject
reject-AreMuted (awaiting_consumer kind p o items) a b h e =
    IsUntouched-AreMuted a b (ground (arith, next_announced-IsUntouched kind items a)) h
reject-AreMuted (awaiting_movement_producer w) a b h e =
    IsUntouched-AreMuted a b (ground (arith, emit_events-IsUntouched w false a)) h
reject-AreMuted (awaiting_events_producer w) a b h e =
    IsUntouched-AreMuted a b (ground (arith, get_announcements-IsUntouched w a)) h
reject-AreMuted (awaiting_device i g m s) a b h e = as_given a b h e
reject-AreMuted awaiting_ingress a b h e = as_given a b h e
reject-AreMuted (awaiting_egress i c) a b h e = as_given a b h e
reject-AreMuted awaiting_microphone a b h e = as_given a b h e
reject-AreMuted awaiting_webcam a b h e = as_given a b h e
reject-AreMuted (awaiting_screen_audio d) a b h e = as_given a b h e
reject-AreMuted (awaiting_screen_video d) a b h e = as_given a b h e
reject-AreMuted (awaiting_connection kind items) a b h e = cc
reject-AreMuted (awaiting_transport kind items) a b h e = cc
reject-AreMuted (awaiting_media_id source d) a b h e = cc
reject-AreMuted (awaiting_data_id label) a b h e = cc
reject-AreMuted (awaiting_producer m w) a b h e = cc

pub with_task-AreMuted :
    (n : ℕ) (f : Task → Avatar → Option Avatar) (a : Avatar)
    → Keeps f
    → AreMuted a
    → AreMuted (with_task n f a)
unfolding with_task
with_task-AreMuted n f a keeps h = elim (Option-cases (take_task n a.tasks)) [
  | inl e ↦ rw (with_task, e) h
  | inr ((t, rest), e) ↦ elim (Option-cases (f t (record a { tasks = rest }))) [
    | inl e' ↦ rw (with_task, e, e') h
    | inr (b, e') ↦ rw (with_task, e, e') (keeps t (record a { tasks = rest }) b h e')
  ]
]
