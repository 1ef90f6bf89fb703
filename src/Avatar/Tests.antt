-- ===== src/Avatar/Tests.antt =====
-- frame/webapp/core/avatar.ts: runs of the client.
use frame_oldbackend_public.Prelude.{
  ℕ, zero, suc, String, true, false, none, some, List, [], ◌∷◌, ◌++◌, ◌≡◌, refl, ◌⊎◌, inl, inr, ◌↔◌,
  arith, eq_iff,
}
use frame_oldbackend_public.Prelude.Maps.{Map, lookup}
use frame_oldbackend_public.Prelude.Lists.{length, IsIn}
use frame_oldbackend_public.Prelude.Entries.{IsDistinct}
use frame_oldbackend_public.Types.Commands.{leave_room, produce_media}
use frame_oldbackend_public.Movement.Fields.{full_packet}
use frame_oldbackend_public.Movement.Transport.{Floats, Packet, get_16, has_bit, to_send}
use frame_oldbackend_public.Movement.Timer.{stop_sending}
use frame_oldbackend_public.Movement.Json.{Movement, avatar, movement_to_json}
use frame_oldbackend_public.Avatar.Packets.{
  Buffer, hex_digit, hex, array_buffer_to_uuid, packed_binary_to_map, packet_size, unpacked, thrown,
  update_peer_movement,
}
use frame_oldbackend_public.Avatar.Packets.Uuid.{array_buffer_to_uuid-injective}
use frame_oldbackend_public.Avatar.Packets.Ending.{packed_binary_to_map-ends}
use frame_oldbackend_public.Avatar.Packets.Joined.{joined, latest, packed_binary_to_map-latest}
use frame_oldbackend_public.Avatar.Packets.Delivered.{
  sent_bytes, update_peer_movement-joined, to_send-packet_size,
}
use frame_oldbackend_public.Avatar.MovementServer.{
  Link, new_link, connect_regional_movement_server, on_open, on_close,
}
use frame_oldbackend_public.Avatar.State.{
  Consumer, Avatar, new_avatar, closed, signalled, produced, audio, Announced,
}
use frame_oldbackend_public.Avatar.Consumers.{close_consumers_for_peer}
use frame_oldbackend_public.Avatar.Leaving.{Page, left, has_length, leave_cleanup, leave_frame}
use frame_oldbackend_public.Avatar.Signals.{announcement}
use frame_oldbackend_public.Avatar.Tasks.{is_muted}
use frame_oldbackend_public.Avatar.Events.{left_avatar, signal, resumed, mutes_peer, run}
use frame_oldbackend_public.Avatar.Muting.{AreMuted}
use frame_oldbackend_public.Avatar.Muting.Run.{run-AreMuted}
use frame_oldbackend_public.Avatar.Closing.{close_consumers_for_peer-closes}
use frame_oldbackend_public.Avatar.Departure.{HasNoConsumers, leave_frame-leaves}
use frame_oldbackend_public.Avatar.Screens.{without_screens, leave_cleanup-screens}
use frame_oldbackend_public.Avatar.Reconnecting.{fire_times, waits_of, IsWaiting, fire_times-waits}
use frame_oldbackend_public.Avatar.Stale.{microphone_events, produce-older}
use frame_oldbackend_public.Avatar.Consuming.Fulfilling.{fulfilments, consume_each}
use frame_oldbackend_public.Avatar.Consuming.Given.{AreGiven}
use frame_oldbackend_public.Avatar.Consuming.{announcement-consumed}

-- Numbers that are all the same.
abbrev units : Floats
units = record {
  Float = Unit {0};
  fround = λ v. v;
  f16round = λ v. v;
  float32_bits = λ v. 0;
  float16_bits = λ v. 0;
  float32 = λ b. tt;
  float16 = λ b. tt;
  float32_bound = λ v. omega arith;
  float16_bound = λ v. omega arith;
  float32_law = λ v. refl;
  float16_law = λ v. refl;
}

abbrev zeros : ℕ → Buffer
zeros zero = []
zeros (suc n) = 0 ∷ zeros n

-- Two uuids, and a packet with the bit of the base position.
abbrev first_uuid : Buffer
first_uuid = 1 ∷ zeros 15

abbrev second_uuid : Buffer
second_uuid = 2 ∷ zeros 15

abbrev short_packet : Buffer
short_packet = 1 ∷ zeros 35

first_text : array_buffer_to_uuid first_uuid ≡ some "01000000-0000-0000-0000-000000000000"
unfolding array_buffer_to_uuid hex hex_digit
first_text = refl

array_buffer_to_uuid-injective_example : first_uuid ≡ 1 ∷ zeros 15
unfolding array_buffer_to_uuid hex hex_digit
array_buffer_to_uuid-injective_example =
    array_buffer_to_uuid-injective first_uuid (1 ∷ zeros 15) "01000000-0000-0000-0000-000000000000"
      (omega arith) (omega arith) refl refl

-- The second byte is missing.
packed_binary_to_map-ends_example :
    ((m : Map Buffer) × (packed_binary_to_map (1 ∷ zeros 3) ≡ unpacked m))
    ⊎ (packed_binary_to_map (1 ∷ zeros 3) ≡ thrown)
packed_binary_to_map-ends_example = packed_binary_to_map-ends (1 ∷ zeros 3)

abbrev two_peers : List (Buffer × Buffer)
two_peers = (first_uuid, short_packet) ∷ (second_uuid, short_packet) ∷ []

packed_binary_to_map-latest_example :
    (m : Map Buffer) × (packed_binary_to_map (joined two_peers) ≡ unpacked m)
    × IsDistinct m
    × ((id : String) → lookup id m ≡ latest id two_peers)
unfolding packet_size
packed_binary_to_map-latest_example =
    packed_binary_to_map-latest two_peers (refl, refl, (refl, refl, tt))

abbrev standing : Movement (Unit {0})
standing = avatar false (tt ∷ tt ∷ tt ∷ []) (tt ∷ tt ∷ tt ∷ tt ∷ []) (tt ∷ tt ∷ tt ∷ tt ∷ []) none

abbrev two_calls : Map (List (Movement (Unit {0})))
two_calls =
    ("01000000-0000-0000-0000-000000000000", standing ∷ [])
    ∷ ("02000000-0000-0000-0000-000000000000", standing ∷ [])
    ∷ []

update_peer_movement-joined_example : update_peer_movement units true (joined two_peers) ≡ two_calls
unfolding packet_size array_buffer_to_uuid hex hex_digit movement_to_json lookup
update_peer_movement-joined_example =
    update_peer_movement-joined units two_peers two_calls (refl, refl, (refl, refl, tt))
      (refl, refl, (refl, refl, tt)) (refl, (refl, tt))

abbrev base_packet : Packet
base_packet i = elim i [ zero ↦ 1 | suc n ↦ 0 ]

-- A full packet without the fullPacket bit.
to_send-packet_size_example :
    (length (sent_bytes (78, base_packet)) ≡ packet_size (sent_bytes (78, base_packet)))
    ↔ ((true ≡ false) ⊎ (has_bit (get_16 0 base_packet) full_packet ≡ true))
unfolding to_send
to_send-packet_size_example = to_send-packet_size true base_packet (78, base_packet) refl

-- An avatar that consumes a peer's microphone, movement and screen.
abbrev pub speaking : Consumer
speaking = record { handle = 7; paused = false }

abbrev pub moving : Consumer
moving = record { handle = 8; paused = false }

abbrev sharing : Consumer
sharing = record { handle = 9; paused = false }

abbrev pub in_room : Avatar
in_room = record (new_avatar "room") {
  avatar_id = "me";
  websocket_ready = true;
  lobby = false;
  consumer_connected = true;
  consumer_transport = ("t", 3) ∷ [];
  producer_transport = some 4;
  audio_consumers = ("peer", speaking) ∷ [];
  movement_consumers = ("peer", moving ∷ []) ∷ [];
  screen_video_consumers = ("peer", sharing ∷ []) ∷ [];
}

in_room-AreMuted : AreMuted in_room
unfolding lookup is_muted
in_room-AreMuted id c e = ground arith

run-AreMuted_example : AreMuted (run (mutes_peer true "peer" ∷ []) in_room)
run-AreMuted_example = run-AreMuted (mutes_peer true "peer" ∷ []) in_room in_room-AreMuted

close_consumers_for_peer-closes_example :
    let b = close_consumers_for_peer "peer" in_room in
    IsIn (closed 9) b.trace
    × (lookup "peer" b.movement_consumers ≡ none)
    × (lookup "peer" b.frame_events_consumers ≡ none)
    × (lookup "peer" b.screen_audio_consumers ≡ none)
    × (lookup "peer" b.screen_video_consumers ≡ none)
    × (lookup "you" b.movement_consumers ≡ lookup "you" in_room.movement_consumers)
    × (lookup "you" b.frame_events_consumers ≡ lookup "you" in_room.frame_events_consumers)
    × (lookup "you" b.screen_audio_consumers ≡ lookup "you" in_room.screen_audio_consumers)
    × (lookup "you" b.screen_video_consumers ≡ lookup "you" in_room.screen_video_consumers)
unfolding lookup
close_consumers_for_peer-closes_example =
    close_consumers_for_peer-closes "peer" (moving ∷ []) in_room sharing "you" refl
      (inr (inr (inr (inr (inr (sharing ∷ [], refl, inl refl))))))
      (ground (arith, eq_iff "peer" "you"))

abbrev pub to_lobby : Page
to_lobby = record { transitions = false; webcam = false; microphone = false }

-- The avatar after it has left.
abbrev gone : Avatar
unfolding leave_frame
gone = left_avatar (leave_frame "room" to_lobby in_room)

leave_frame-leaves_example :
    IsIn (closed 8) gone.trace
    × HasNoConsumers gone
    × IsIn (signalled (leave_room "me" "room")) gone.trace
    × (gone.avatar_mover ≡ stop_sending in_room.avatar_mover)
unfolding gone leave_frame
leave_frame-leaves_example =
    leave_frame-leaves "room" to_lobby in_room gone 8 refl (inr (inr (inl (inl (inl refl))))) refl

leave_cleanup-screens_example :
    (b : Avatar) × (c : Avatar) × (leave_cleanup to_lobby in_room ≡ left b)
    × (leave_cleanup to_lobby (without_screens in_room) ≡ left c)
    × (b.trace ≡ c.trace)
    × (b.screen_video_consumers ≡ [])
    × (b.screen_audio_consumers ≡ [])
    × (b.screen_video_producer ≡ in_room.screen_video_producer)
    × (b.screen_audio_producer ≡ in_room.screen_audio_producer)
    × (b.screen_video_producer_ids ≡ in_room.screen_video_producer_ids)
    × (b.screen_audio_producer_ids ≡ [])
unfolding has_length
leave_cleanup-screens_example = leave_cleanup-screens to_lobby in_room refl refl refl refl

-- A websocket to a movement server.
abbrev connecting : Link
unfolding connect_regional_movement_server
connecting = connect_regional_movement_server (some "host") (some "room") new_link

fire_times-waits_example :
    let l = fire_times 9 (on_close false 0 (on_open 0 connecting)) in
    (t : ℕ) × IsWaiting t l × (l.trace ≡ connecting.trace ++ waits_of 10)
unfolding connecting
fire_times-waits_example = fire_times-waits 9 0 connecting refl refl

-- A microphone was produced before.
abbrev produced_before : Avatar
produced_before = record in_room { audio_producer_id = some "old" }

produce-older_example :
    let b = run (microphone_events "audio" "options" "device" "new") produced_before in
    (b.trace ≡ signalled (produce_media "me" "audio" "options") ∷ produced "old" ∷ [])
    × (b.tasks ≡ [])
    × (b.audio_producer_id ≡ some "new")
produce-older_example =
    produce-older "audio" "options" "device" "new" produced_before refl refl refl refl

abbrev one_announced : Announced
one_announced = ("peer", record { transport_id = "t"; source = "microphone"; options = "" }) ∷ []

announcement-consumed_example :
    let b =
      run (signal (announcement audio one_announced) ∷ resumed 0 ∷ fulfilments (11 ∷ [])) in_room in
    (b ≡ record (consume_each audio one_announced (11 ∷ []) in_room) { tasks = [] })
    × AreGiven audio one_announced (11 ∷ []) b.trace
unfolding lookup
announcement-consumed_example =
    announcement-consumed audio one_announced (11 ∷ []) in_room refl refl refl ((3, refl), tt) refl
