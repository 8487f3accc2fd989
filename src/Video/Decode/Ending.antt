-- ===== src/Video/Decode/Ending.antt =====
-- plugins/video.c: the player gives up a file from which no packet comes.
use wallyd.Common.{
  ℕ, zero, suc, ◌+◌, ◌≤◌, ◌<◌, ◌≡◌, refl, ◌⊎◌, inl, inr, true, false, not, ◌||◌, List, [], ◌∷◌,
  arith, if◌then◌else◌, done,
}
use wallyd.Video.Decode.{
  Flags, Player, no_packet, Step, reads, count_fail, end_loop, video_fail_packets, is_over, exceeds,
  max_audio_size, max_video_size, decode_round, play,
}

-- So many rounds in which a read gives no packet and no error.
abbrev pub failed_reads : ℕ → List Step
failed_reads zero = []
failed_reads (suc n) = reads no_packet ∷ failed_reads n

-- The flags after a round: the reading thread counts the read, or ends.
abbrev failed : Flags → Flags
failed f = if not f.decoding then f else if is_over f then end_loop f else count_fail f

abbrev failed_times : ℕ → Flags → Flags
failed_times zero f = f
failed_times (suc n) f = failed_times n (failed f)

failed_round :
    (s : Player)
    → s.flags.pause ≡ false
    → (exceeds s.audioq.size max_audio_size || exceeds s.videoq.size max_video_size) ≡ false
    → decode_round no_packet s ≡ done ([], record s { flags = failed s.flags })
unfolding decode_round
failed_round s not_paused few = ground arith

failed_pause : (f : Flags) → f.pause ≡ false → (failed f).pause ≡ false
failed_pause f h = ground arith

play_failed :
    (n : ℕ) (s : Player)
    → s.flags.pause ≡ false
    → (exceeds s.audioq.size max_audio_size || exceeds s.videoq.size max_video_size) ≡ false
    → play (failed_reads n) s ≡ done ([], record s { flags = failed_times n s.flags })
unfolding play
play_failed zero s not_paused few = refl
play_failed (suc n) s not_paused few = rw (failed_round s not_paused few) (
    rw (play_failed n (record s { flags = failed s.flags }) (failed_pause s.flags not_paused) few)
      refl)

failed-quit : (f : Flags) → f.quit ≡ true → (failed f).quit ≡ true
failed-quit f h = ground arith

failed_times-quit : (n : ℕ) (f : Flags) → f.quit ≡ true → (failed_times n f).quit ≡ true
failed_times-quit zero f h = h
failed_times-quit (suc n) f h = failed_times-quit n (failed f) (failed-quit f h)

-- A round tells the others to quit, or it counts a failed read.
failed_cases :
    (f : Flags)
    → f.decoding ≡ true
    → ((failed f).quit ≡ true)
      ⊎ (((failed f).decoding ≡ true)
          × ((failed f).read_frame_fail ≡ f.read_frame_fail + 1)
          × ((failed f).read_frame_fail ≤ video_fail_packets))
failed_cases f h = ground arith

failed_times_quits :
    (n : ℕ) (f : Flags)
    → f.decoding ≡ true
    → f.read_frame_fail ≤ video_fail_packets
    → video_fail_packets < n + f.read_frame_fail
    → (failed_times n f).quit ≡ true
failed_times_quits zero f h few many = absurd (omega arith)
failed_times_quits (suc n) f h few many = elim (failed_cases f h) [
  | inl quits ↦ failed_times-quit n (failed f) quits
  | inr (goes, counted, fits) ↦ failed_times_quits n (failed f) goes fits (omega arith)
]

-- While the thread that reads is in its loop, the player is not paused and neither queue is too full:
-- after 33 rounds in which a read gives no packet and no error, counted since a picture was shown, the
-- player is told to quit, whatever else its flags say, and no packet was put into a queue.
pub play_failed_quits :
    (n : ℕ) (s : Player)
    → s.flags.decoding ≡ true
    → s.flags.pause ≡ false
    → (exceeds s.audioq.size max_audio_size || exceeds s.videoq.size max_video_size) ≡ false
    → s.flags.read_frame_fail ≤ video_fail_packets
    → n + s.flags.read_frame_fail ≡ video_fail_packets + 1
    → (t : Player) × (play (failed_reads n) s ≡ done ([], t)) × (t.flags.quit ≡ true)
play_failed_quits n s decoding not_paused few fails enough = (
  record s { flags = failed_times n s.flags },
  play_failed n s not_paused few,
  failed_times_quits n s.flags decoding fails (omega arith),
)
