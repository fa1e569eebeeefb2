-- ===== src/Routes/Device.antt =====
-- src/airplay/airplay2_setup.h and src/video/video_renderer.cpp: the requests for streams, and the
-- device that the renderer shows, as the handlers of src/airplay/routes.cpp read and change it.
use air_play_windows.Base.{
  ◌==◌, if◌then◌else◌, Bytes, codes, equal, is_empty, ℕ, Bool, false, not, ◌&&◌, ◌||◌, Option, none,
  some, List, [], ◌∷◌,
}
use air_play_windows.Streams.{Bind}

pub record DeviceInfo : Type 0 where
  pub peer_ip : Bytes
  pub session_id : Bytes
  pub kind : Bytes
  pub name : Bytes
  pub model : Bytes

abbrev pub no_device : DeviceInfo
no_device = record { peer_ip = []; session_id = []; kind = []; name = []; model = [] }

-- The device that a renderer shows, if there is one.
abbrev pub Device : Type 0
Device = Option DeviceInfo

-- A stream that a request asks for: the port that a mirror listener gets, whether the audio
-- receiver starts, and the binds of its data and control sockets.
pub record StreamRequest : Type 0 where
  pub type : ℕ
  pub mirror_port : Option ℕ
  pub starts : Bool
  pub data_bind : Bind
  pub control_bind : Bind

-- `Airplay2SetupRequest`.
pub record SetupRequest : Type 0 where
  pub has_keys : Bool
  pub is_remote_control_only : Bool
  pub timing_rport : ℕ
  pub name : Bytes
  pub model : Bytes
  pub has_streams : Bool
  pub streams : List StreamRequest

-- A device of another address is active.
unfoldable pub is_paired : Bytes → Option Device → Bool
is_paired ip none = false
is_paired ip (some none) = false
is_paired ip (some (some dev)) = not (is_empty dev.peer_ip) && not (equal dev.peer_ip ip)

unfoldable pub asks_for : ℕ → List StreamRequest → Bool
asks_for type [] = false
asks_for type (q ∷ qs) = q.type == type || asks_for type qs

unfoldable pub device_kind : List StreamRequest → Bytes → Bytes
device_kind qs kind =
    if asks_for 110 qs && not (equal kind (codes "HLS"))
    then codes "Mirror"
    else if asks_for 96 qs && (not (equal kind (codes "HLS")) && not (equal kind (codes "Mirror")))
    then codes "Audio"
    else kind

abbrev kept_name : Bytes → Bytes → Bytes
kept_name new old = if is_empty new then old else new

abbrev pub merge_device : SetupRequest → Bytes → Bytes → DeviceInfo → DeviceInfo
merge_device req ip id dev = record {
  peer_ip = ip;
  session_id = id;
  kind = device_kind req.streams dev.kind;
  name = kept_name req.name dev.name;
  model = kept_name req.model dev.model;
}

-- `active_device_snapshot` and `set_active_device`.
abbrev pub show_device : SetupRequest → Bytes → Bytes → Option Device → Option Device
show_device req ip id none = none
show_device req ip id (some none) = some (some (merge_device req ip id no_device))
show_device req ip id (some (some dev)) = some (some (merge_device req ip id dev))

abbrev pub clear_active_device : Option Device → Option Device
clear_active_device none = none
clear_active_device (some dev) = some none

unfoldable pub clear_session_if_active : Bytes → Option Device → Option Device
clear_session_if_active id none = none
clear_session_if_active id (some none) = some none
clear_session_if_active id (some (some dev)) =
    if equal dev.session_id id then some none else some (some dev)

-- What `handle_play` shows of its sender.
abbrev pub play_device : Bytes → Bytes → Option Device → Option Device
play_device ip sid none = none
play_device ip sid (some none) =
    some (some (record no_device { peer_ip = ip; session_id = sid; kind = codes "HLS" }))
play_device ip sid (some (some dev)) =
    some (some (record dev { peer_ip = ip; session_id = sid; kind = codes "HLS" }))
