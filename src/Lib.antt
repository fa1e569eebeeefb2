-- ===== src/Lib.antt =====
-- The verification library of AirPlay-Windows, an AirPlay receiver for Windows.
--
-- A sender opens RTSP connections to the program, which reads requests off the stream, checks who
-- sends, sets up mirroring (H.264 or HEVC in encrypted packets), audio (RTP packets with NTP
-- anchors) or HLS video (playlists and segments that the sender fetches on the program's behalf),
-- and plays what comes.
-- Modelled is the code between the operating system and the codecs: parsers, clocks, queues and
-- registries. Each model takes what the code reads from outside (clocks, sockets, devices) as
-- arguments, and a step of the model is what the code does under one lock. Names are the source's.
--
-- The parts, with the code that each is about:
--   Rtsp          src/airplay/rtsp_parser.cpp: `RequestReader::read` over the chunks that
--                 `recv_interruptible` gives. `read_headers` is `receive_head` and `parse_head`,
--                 `fill` is `fill`; Rtsp/Stream and Rtsp/Complete relate them to the whole stream.
--   Audio         src/audio/audio_receiver.cpp and rtp_flush.h. Audio/Trim is `trim_before`,
--                 Audio/Queue the control side (`flush`, `resume`, `discard_pause`,
--                 `set_synchronized`), Audio/Intake the critical section of `thread_fn`,
--                 Audio/Playout a round of `playout_fn`, Audio/Events all of them together.
--                 Audio/Network is what `thread_fn` does with control and data packets.
--                 Audio/Timestamp is `flush_timestamp`, which reads the boundary of a flush.
--   Nal           src/airplay/h264_nal.cpp: `parse_nals_avcc_to_annexb`, which rewrites a mirror
--                 payload in place.
--   Mirror        src/airplay/mirror_listener.cpp: `recv_exact` and `reader_loop`, from the pieces
--                 that the socket gives to the calls of the decoder and the renderer.
--                 Mirror/Stream says which frames a byte stream holds, Mirror/Feed and Mirror/Steps
--                 what reaches the decoder.
--   Decoder       src/video/h264_decoder.cpp: configuration records, opening a codec and the packets
--                 that `decode` gives to FFmpeg. Decoder/Config are the parsers, Decoder/Written and
--                 Decoder/Arrays the records that a sender writes, Decoder/Idr joins it to Mirror.
--   Sps           src/airplay/h264_sps.cpp: `ebsp_to_rbsp`, the bit reader and
--                 `compute_frame_size`; Sps/Parse is `parse_h264_sps`, Sps/Syntax the bits that an
--                 encoder writes, Sps/Bits and Sps/Golomb how the reader reads them.
--   NtpClock      src/airplay/ntp_clock.h: the clock that maps the sender's time to the local one
--                 for the playout loop's deadlines.
--   PairVerify    src/crypto/pair_verify.cpp and the handler of `/pair-verify`: `PairVerifySession`
--                 with its two messages. PairVerify/Authentic is what a connection that is verified has
--                 shown, PairVerify/Honest a sender that follows the protocol.
--   Settings      src/settings.cpp: `load_settings` over the text of the file, and the text that
--                 `save_settings` writes.
--   Hls           src/airplay/hls_session.cpp and reverse_channel.cpp: the registry of sessions,
--                 `lookup_playlist`, and `fetch_segment` and `fetch_playlist` as the steps before
--                 and after their waits, with the deliveries that come between. Hls/Condensed,
--                 Hls/Rewrite and Hls/Master are the functions that expand, rewrite and filter a
--                 playlist.
--   HlsServer     src/airplay/hls_local_server.cpp: the server that the player reads from.
--                 HlsServer/Serve is about playlists, HlsServer/Urls about `rewrite_urls`, and
--                 HlsServer/Proxy about the `/seg/` route with its ranges and chunks.
--   Routes        src/airplay/routes.cpp: what `handle_play`, `handle_action` and `handle_stop` do to
--                 the HLS sessions. Routes/Connection is `handle_setup` with its two paths,
--                 `handle_record` and `handle_teardown` over the streams of a control connection and
--                 the device that src/video/video_renderer.cpp shows, with the end of the
--                 connection in src/airplay/server.cpp; Routes/Device is that device and what a
--                 request holds. Routes/Life runs the handlers, Routes/Settled
--                 accounts for their sockets, Routes/Owner and Routes/Guard are two senders at
--                 once, Routes/Lost a second SETUP with keys, Routes/Remains the device that stays
--                 shown after a video.
--   Streams       src/airplay/streams.cpp: `StreamSession`, its sockets, channels and audio receiver,
--                 which the connections of Routes own. Streams/Runs is any sequence of its
--                 operations, Streams/Pause what a pause keeps.
--   Daap          src/airplay/daap.cpp: the track metadata that the sender pushes.
--   ReceiverName  src/airplay/receiver_name.h: the check of the name that is announced.
--   Base          numbers, lists, byte strings, searches in strings and maps that these share.
--
-- Machine integers: 32-bit and `size_t` arithmetic is written with its wrap-around. Signed 64-bit
-- nanoseconds are integers without bound, since the products in the code stay below 2 ^ 63 for the
-- rates and times that occur; the request counter of an HLS session is a number without bound.
-- Maps with unspecified order are lists of pairs in any order.
--
-- Fuel: the NAL loop and the entry loop of DMAP take a unit of fuel for a round that takes at least
-- a byte, and get the length of the buffer; the header loop gets the bytes left before the end of
-- the head; the name check gets the name's length; the count of leading zeros leaves after 33
-- rounds; the mirror loop takes at least 128 bytes in a round, and gets the bytes before the end of
-- the stream; `rewrite_urls` takes the 18 characters that it replaces; a number has no more digits
-- than its value and one.
--
-- Not modelled: rendering, the codecs, ciphers and device output, which are calls of SDL, FFmpeg,
-- OpenSSL, GStreamer and Windows; the threads and sockets themselves; property lists (libplist);
-- the handlers in src/airplay/routes.cpp that answer without changing the sessions, the streams or
-- the device, or that pass data on to the player or the renderer; the session descriptions of a
-- legacy ANNOUNCE, which only the log reads; the commands to the sender's player (DACP), the service
-- announcement and USB, which are sequences of calls of the operating system and of libraries; log
-- output.
pub mod Audio
pub mod Base
pub mod Daap
pub mod Decoder
pub mod Hls
pub mod HlsServer
pub mod Mirror
pub mod Nal
pub mod NtpClock
pub mod PairVerify
pub mod ReceiverName
pub mod Routes
pub mod Rtsp
pub mod Settings
pub mod Sps
pub mod Streams
