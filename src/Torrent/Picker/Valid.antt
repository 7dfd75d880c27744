-- ===== src/Torrent/Picker/Valid.antt =====
-- The invariant of the picker, and what marking a block does to the three bit arrays.
use c_fs_subscriber.Base.{
  ◌==◌, if◌then◌else◌, lt→ltb, ℕ, ◌-◌, ◌<◌, ◌≡◌, refl, ◌∙◌, Bool, true, false, some, arith,
}
use c_fs_subscriber.Pg.Bitarray.Bits
use c_fs_subscriber.Pg.Bitarray.Bits.{bit, Updates, set-Updates, unset-Updates}
use c_fs_subscriber.Torrent.Metainfo.Sound.{IsSound}
use c_fs_subscriber.Torrent.Metainfo.Blocks.{last_blocks_bounds}
use c_fs_subscriber.Pg.Bitarray
use c_fs_subscriber.Torrent.Metainfo.{Metainfo}
use c_fs_subscriber.Torrent.Picker.{
  init, Picker, mark_block_as_downloading, mark_block_as_downloaded,
}

pub record IsValid (p : Picker) : Type 0 where
  pub sound : IsSound p.metainfo
  pub valid_to_download : Bits.IsValid p.to_download
  pub valid_downloading : Bits.IsValid p.downloading
  pub valid_downloaded : Bits.IsValid p.downloaded
  pub max_to_download : p.to_download.max_index ≡ p.metainfo.blocks_count - 1
  pub max_downloading : p.downloading.max_index ≡ p.metainfo.blocks_count - 1
  pub max_downloaded : p.downloaded.max_index ≡ p.metainfo.blocks_count - 1

-- A block stands in exactly one of the three arrays.
pub data Status : Type 0 where
  waiting requested done mixed : Status

abbrev pub status_of : Bool → Bool → Bool → Status
status_of true false false = waiting
status_of false true false = requested
status_of false false true = done
status_of _ _ _ = mixed

unfoldable pub status : Picker → ℕ → Status
status p block =
    status_of (bit p.to_download block) (bit p.downloading block) (bit p.downloaded block)

-- `p'` is a valid picker of the same torrent, whose blocks have the status `f`.
pub record Becomes (p p' : Picker) (f : ℕ → Status) : Type 0 where
  pub valid : IsValid p'
  pub same : p'.metainfo ≡ p.metainfo
  pub statuses : (j : ℕ) → j < p.metainfo.blocks_count → status p' j ≡ f j

module _ {p : Picker} (v : IsValid p) (block : ℕ) (q : block < p.metainfo.blocks_count) where
  -- In a valid picker, marking a block of the file that waits makes it a requested one: no `assert`
  -- fails, the picker stays valid, and no other block changes its status.
  pub mark_block_as_downloading_lem :
      status p block ≡ waiting
      → (p' : Picker) × (mark_block_as_downloading p block ≡ some p')
        × Becomes p p' (λ j. if block == j then requested else status p j)
  unfolding mark_block_as_downloading status
  mark_block_as_downloading_lem w =
      let (d, e, u) = set-Updates block v.valid_downloading (omega (arith, v.max_downloading)) in
      let (t, f, n) = unset-Updates block v.valid_to_download (omega (arith, v.max_to_download)) in
      (
        record p { to_download = t; downloading = d },
        rw (lt→ltb block _ q, e, f) refl,
        record {
          valid = record {
            sound = v.sound;
            valid_to_download = n.valid;
            valid_downloading = u.valid;
            valid_downloaded = v.valid_downloaded;
            max_to_download = n.same_max ∙ v.max_to_download;
            max_downloading = u.same_max ∙ v.max_downloading;
            max_downloaded = v.max_downloaded;
          };
          same = refl;
          statuses = λ j r. ground (arith, n.bits j, u.bits j);
        },
      )

  -- In a valid picker, marking a requested block of the file makes it a downloaded one: no `assert`
  -- fails, the picker stays valid, and no other block changes its status.
  pub mark_block_as_downloaded_lem :
      status p block ≡ requested
      → (p' : Picker) × (mark_block_as_downloaded p block ≡ some p')
        × Becomes p p' (λ j. if block == j then done else status p j)
  unfolding mark_block_as_downloaded status
  mark_block_as_downloaded_lem w =
      let (d, e, u) = set-Updates block v.valid_downloaded (omega (arith, v.max_downloaded)) in
      let (t, f, n) = unset-Updates block v.valid_downloading (omega (arith, v.max_downloading)) in
      (
        record p { downloaded = d; downloading = t },
        rw (lt→ltb block _ q, e, f) refl,
        record {
          valid = record {
            sound = v.sound;
            valid_to_download = v.valid_to_download;
            valid_downloading = n.valid;
            valid_downloaded = u.valid;
            max_to_download = v.max_to_download;
            max_downloading = n.same_max ∙ v.max_downloading;
            max_downloaded = u.same_max ∙ v.max_downloaded;
          };
          same = refl;
          statuses = λ j r. ground (arith, n.bits j, u.bits j);
        },
      )

-- For a sound torrent whose last piece is not empty, no `assert` of `picker_init` fails, and the new
-- picker is valid and has every block of the file waiting.
pub init_lem :
    {m : Metainfo}
    → IsSound m
    → 0 < m.last_piece_length
    → (p : Picker) × (init m ≡ some p)
      × IsValid p
      × (p.metainfo ≡ m)
      × ((j : ℕ) → j < m.blocks_count → status p j ≡ waiting)
unfolding init status
init_lem {m} s pos =
    let n = m.blocks_count - 1 in
    let blank = Bitarray.init n in
    let (blank_valid, blank_bits) = Bits.init_lem n in
    let (full_valid, full_bits) = Bits.set_all_lem blank_valid in
    (
      record {
        to_download = Bitarray.set_all blank;
        downloading = blank;
        downloaded = blank;
        metainfo = m;
      },
      ground (arith, last_blocks_bounds s, s),
      record {
        sound = s;
        valid_to_download = full_valid;
        valid_downloading = blank_valid;
        valid_downloaded = blank_valid;
        max_to_download = max_all;
        max_downloading = max_blank;
        max_downloaded = max_blank;
      },
      refl,
      λ j q. ground (
        arith,
        blank_bits j (rw max_blank (omega arith)),
        full_bits j (rw max_all (omega arith)),
      ),
    )
  where
    max_blank : (Bitarray.init (m.blocks_count - 1)).max_index ≡ m.blocks_count - 1
    max_blank = unfold Bitarray.init in refl

    max_all : (Bitarray.set_all (Bitarray.init (m.blocks_count - 1))).max_index ≡ m.blocks_count - 1
    max_all = unfold Bitarray.init Bitarray.set_all in refl
