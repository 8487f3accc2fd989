-- ===== src/Video.antt =====
-- plugins/video.c and plugins/sdlvideo.c: the video player, in the parts that its threads share.
pub mod Packets
pub mod Decode
pub mod Pictures
