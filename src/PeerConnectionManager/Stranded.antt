-- ===== src/PeerConnectionManager/Stranded.antt =====
-- frame/libs/peerConnectionManager.ts: a client that fails to join a new room, and leaves it.
use frame_oldbackend_public.Prelude.{String, ◌≡◌, ◌≢◌, some, List, []}
use frame_oldbackend_public.Prelude.Maps.{lookup}
use frame_oldbackend_public.Types.{Guid}
use frame_oldbackend_public.State.{State}
use frame_oldbackend_public.SignalRouter.Servers.{ServerPool}

-- The region has a server on record, and its loads are an empty object.
abbrev pub IsUnloaded : String → ServerPool → Type 0
IsUnloaded region p =
    (lookup region p.load ≡ some [])
    × (servers : List Guid) × (lookup region p.regions ≡ some servers)
    × (servers ≢ [])
