-- ===== src/MpegTs/Psi/Read.antt =====
-- The program tables as a receiver reads them from the payload of a packet.
use horizon_cast.Base.{
  ℕ, ◌+◌, ◌-◌, ◌*◌, ◌%◌, ◌≡◌, refl, ◌&&◌, Option, none, some, List, [], ◌∷◌, ◌++◌, leb, ◌==◌,
  if◌then◌else◌, ◌>>=◌, length, take, replicate,
}
use horizon_cast.Base.Words.{Bytes}
use horizon_cast.MpegTs.Crc.{crc32_mpeg}
use horizon_cast.MpegTs.Psi.{pat_section, pmt_section}

-- The section behind the pointer field, if it is of table `id` and its checksum holds. Its length
-- field counts what follows that field, the checksum included.
pub read_section : ℕ → Bytes → Option Bytes
read_section id (pointer ∷ table ∷ hi ∷ lo ∷ rest) =
    let size = hi % 16 * 256 + lo in
    let section = table ∷ hi ∷ lo ∷ take size rest in
    if pointer == 0 && table == id && leb size (length rest) && crc32_mpeg section == 0
    then some (take size rest)
    else none
read_section _ _ = none

-- The PID of the map of the first program.
pub read_pat : Bytes → Option ℕ
unfolding read_section
read_pat payload = read_section 0 payload >>= first_program
  where
    first_program : Bytes → Option ℕ
    first_program (_ ∷ _ ∷ _ ∷ _ ∷ _ ∷ p ∷ q ∷ hi ∷ lo ∷ _) =
        if p * 256 + q == 1 then some (hi % 32 * 256 + lo) else none
    first_program _ = none

-- Stream types and PIDs, up to the checksum.
read_streams : Bytes → List (ℕ × ℕ)
read_streams (kind ∷ hi ∷ lo ∷ _ ∷ _ ∷ rest) = (kind, hi % 32 * 256 + lo) ∷ read_streams rest
read_streams _ = []

-- The PID of the clock, and the elementary streams.
pub read_pmt : Bytes → Option (ℕ × List (ℕ × ℕ))
unfolding read_section read_streams
read_pmt payload = read_section 2 payload >>= streams
  where
    streams : Bytes → Option (ℕ × List (ℕ × ℕ))
    streams (_ ∷ _ ∷ _ ∷ _ ∷ _ ∷ hi ∷ lo ∷ _ ∷ _ ∷ rest) =
        some (hi % 32 * 256 + lo, read_streams rest)
    streams _ = none

-- The payload of a table packet, behind its pointer field.
abbrev pub table_payload : Bytes → Bytes
table_payload section = 0 ∷ (section ++ replicate (183 - length section) 0xFF)

pub read_pat-pat_section : read_pat (table_payload pat_section) ≡ some 0x1000
unfolding read_pat pat_section crc32_mpeg
read_pat-pat_section = refl

pub read_pmt-pmt_section :
    read_pmt (table_payload pmt_section) ≡ some (0x100, (0x1B, 0x100) ∷ (0x0F, 0x101) ∷ [])
unfolding read_pmt pmt_section crc32_mpeg
read_pmt-pmt_section = refl
