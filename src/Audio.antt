-- ===== src/Audio.antt =====
-- src/audio/audio_receiver.cpp and src/audio/rtp_flush.h: the queue of decoded PCM between the
-- network thread and the playout thread.
-- RTP times are 32-bit numbers that wrap; local times are int64_t nanoseconds, whose sums stay far
-- below 2 ^ 63; a sample is its 16-bit pattern; a size_t count wraps at 2 ^ 64.
pub mod Trim
pub mod Queue
pub mod Intake
pub mod Playout
pub mod Events
pub mod Network
pub mod Timestamp
mod Tests
