-- ===== src/Capture/Gaps.antt =====
-- internal/webrtc/client.go: how much silence stands for the packets that are missing in front of one,
-- by its 32-bit timestamp, once a packet has been decoded. A gap of at most 120 ms at 16 kHz is concealed.
use gocalis.Common.{
  ℕ, ◌+◌, ◌-◌, ◌*◌, ◌/◌, ◌%◌, ◌≤◌, ◌<◌, ◌≡◌, ltb, leb, Bool, true, ◌&&◌, if◌then◌else◌, ◌⊎◌, false,
}

abbrev pub recv_model_rate : ℕ
recv_model_rate = 16000

-- `timestamp + uint32(previousSamples)*clockRate/recvModelRate`
unfoldable pub expected : ℕ → ℕ → ℕ → ℕ
expected timestamp previous clock =
    (timestamp + (previous * clock % 4294967296) / recv_model_rate) % 4294967296

-- `int64(int32(now - expected)) * recvModelRate / int64(clockRate)`; 0 stands for a gap that is not
-- positive.
unfoldable pub missing : ℕ → ℕ → ℕ → ℕ
missing now due clock =
    let gap = (now + (4294967296 - due)) % 4294967296 in
    if ltb gap 2147483648 then gap * recv_model_rate / clock else 0

-- The samples that are put in: for Opus whole units of 2.5 ms where the decoder conceals them.
unfoldable pub concealed : Bool → Bool → ℕ → ℕ
concealed is_opus plc_works count =
    if ltb 0 count && leb count 1920
    then (if is_opus then (if plc_works then count / 40 * 40 else 0) else count)
    else 0

-- What is put in for so many missing samples.
pub record IsFilled (is_opus plc_works : Bool) (count put_in : ℕ) : Type 0 where
  pub few : put_in ≤ count
  pub short : put_in ≤ 1920
  pub long_or_filled :
      ((1920 < count) × (put_in ≡ 0))
      ⊎ ((count ≤ 1920)
          × ((is_opus ≡ true) ⊎ (put_in ≡ count))
          × ((plc_works ≡ false) ⊎ (count < put_in + 40)))
