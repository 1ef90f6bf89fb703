-- ===== src/Avatar/Screens.antt =====
-- frame/webapp/core/avatar.ts, `leaveCleanup`: what becomes of the screens.
use frame_oldbackend_public.Prelude.{false, [], ◌∷◌, ◌≡◌, refl, inl, inr, arith}
use frame_oldbackend_public.Prelude.Maps.{Map}
use frame_oldbackend_public.Avatar.State.{Avatar}
use frame_oldbackend_public.Avatar.Leaving.{Page, left, failed, has_length, elements, leave_cleanup}
use frame_oldbackend_public.Avatar.Departure.{Left-cases}

elements-nil : {V : Type 0} (m : Map V) → has_length m ≡ false → elements m ≡ []
unfolding has_length elements
elements-nil [] h = refl
elements-nil ((key, value) ∷ m) h = ground (arith, elements-nil m)

-- An avatar without screens that is otherwise the same.
abbrev pub without_screens : Avatar → Avatar
without_screens a = record a {
  screen_audio_consumers = [];
  screen_video_consumers = [];
  screen_audio_producer = [];
  screen_video_producer = [];
}

module _ (page : Page) (a : Avatar) (ha : has_length a.screen_audio_consumers ≡ false)
    (hv : has_length a.screen_video_consumers ≡ false) where
  screens-ne-failed : (b : Avatar) → leave_cleanup page a ≡ failed b → ⊥
  unfolding leave_cleanup
  screens-ne-failed b e = ground arith

  no_screens-ne-failed : (b : Avatar) → leave_cleanup page (without_screens a) ≡ failed b → ⊥
  unfolding leave_cleanup has_length
  no_screens-ne-failed b e = ground arith

  screens_same :
      (b c : Avatar)
      → leave_cleanup page a ≡ left b
      → leave_cleanup page (without_screens a) ≡ left c
      → elements a.screen_audio_producer ≡ []
      → elements a.screen_video_producer ≡ []
      → (b.trace ≡ c.trace)
        × (b.screen_video_consumers ≡ [])
        × (b.screen_audio_consumers ≡ [])
        × (b.screen_video_producer ≡ a.screen_video_producer)
        × (b.screen_audio_producer ≡ a.screen_audio_producer)
        × (b.screen_video_producer_ids ≡ a.screen_video_producer_ids)
        × (b.screen_audio_producer_ids ≡ [])
  unfolding leave_cleanup elements
  screens_same b c e f p q = ground arith

-- The ids of peers and devices are no array indices: then `leaveCleanup` does the same to the outside
-- as if there were no screens, so that it closes neither the consumers nor the producers of screens. It
-- forgets the consumers, and keeps the producers, and of the ids the videos' ones.
pub leave_cleanup-screens :
    (page : Page) (a : Avatar)
    → has_length a.screen_audio_consumers ≡ false
    → has_length a.screen_video_consumers ≡ false
    → has_length a.screen_audio_producer ≡ false
    → has_length a.screen_video_producer ≡ false
    → (b : Avatar) × (c : Avatar) × (leave_cleanup page a ≡ left b)
      × (leave_cleanup page (without_screens a) ≡ left c)
      × (b.trace ≡ c.trace)
      × (b.screen_video_consumers ≡ [])
      × (b.screen_audio_consumers ≡ [])
      × (b.screen_video_producer ≡ a.screen_video_producer)
      × (b.screen_audio_producer ≡ a.screen_audio_producer)
      × (b.screen_video_producer_ids ≡ a.screen_video_producer_ids)
      × (b.screen_audio_producer_ids ≡ [])
leave_cleanup-screens page a ha hv pa pv =
    let ea = elements-nil a.screen_audio_producer pa in
    let ev = elements-nil a.screen_video_producer pv in
    elim (Left-cases (leave_cleanup page a)) [
      | inr (b, e) ↦ absurd (screens-ne-failed page a ha hv b e)
      | inl (b, e) ↦ elim (Left-cases (leave_cleanup page (without_screens a))) [
        | inr (c, f) ↦ absurd (no_screens-ne-failed page a ha hv c f)
        | inl (c, f) ↦
            let s = screens_same page a ha hv b c e f ea ev in
            (b, c, e, f, s.0, s.1, s.2, s.3, s.4, s.5, s.6)
      ]
    ]
