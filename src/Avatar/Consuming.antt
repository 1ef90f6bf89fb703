-- ===== src/Avatar/Consuming.antt =====
-- frame/webapp/core/avatar.ts: what becomes of an announcement once its promises are fulfilled.
pub mod Fulfilling
pub mod Given
use frame_oldbackend_public.Prelude.{true, false, List, [], ◌∷◌, ◌≡◌, ap, ◌∙◌, arith}
use frame_oldbackend_public.Prelude.Lists.{length}
use frame_oldbackend_public.Avatar.State.{
  Handle, Announcement, audio, video, movement, events, Announced, Avatar,
}
use frame_oldbackend_public.Avatar.Signals.{announcement, announced, incoming_signal}
use frame_oldbackend_public.Avatar.Tasks.{next_announced, resume, take_task, with_task}
use frame_oldbackend_public.Avatar.Events.{signal, resumed, handle, run}
use frame_oldbackend_public.Avatar.Consuming.Fulfilling.{
  AreReachable, fulfilments, consume_each, with_tasks, fulfil_each,
}
use frame_oldbackend_public.Avatar.Consuming.Given.{AreGiven, consume_each-AreGiven}

begun :
    (kind : Announcement) (items : Announced) (a : Avatar)
    → a.tasks ≡ []
    → a.lobby ≡ false
    → a.consumer_connected ≡ true
    → handle (resumed 0) (handle (signal (announcement kind items)) a)
      ≡ next_announced kind items (with_tasks [] a)
unfolding handle incoming_signal announced with_task take_task resume
begun audio items a idle outside connected = ground arith
begun video items a idle outside connected = ground arith
begun movement items a idle outside connected = ground arith
begun events items a idle outside connected = ground arith

-- A media server announces producers to an avatar with no other task that is connected, that is not in
-- the lobby, and that has a transport for each of them; the promises are fulfilled one after the other.
-- The handler then comes to its end; it has done with each consumer, in order, what is done with one;
-- and each consumer of audio or video was handed to the page.
pub announcement-consumed :
    (kind : Announcement) (items : Announced) (consumers : List Handle) (a : Avatar)
    → a.tasks ≡ []
    → a.lobby ≡ false
    → a.consumer_connected ≡ true
    → AreReachable items a.consumer_transport
    → length consumers ≡ length items
    → let b = run (signal (announcement kind items) ∷ resumed 0 ∷ fulfilments consumers) a in
      (b ≡ record (consume_each kind items consumers a) { tasks = [] })
      × AreGiven kind items consumers b.trace
unfolding run
announcement-consumed kind items consumers a idle outside connected reach same =
    let all =
      ap (run (fulfilments consumers)) (begun kind items a idle outside connected)
      ∙ fulfil_each kind items consumers a reach same in
    (all, rw all (consume_each-AreGiven kind items consumers a reach))
