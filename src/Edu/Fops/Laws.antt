-- ===== src/Edu/Fops/Laws.antt =====
-- What a reader and a writer of the device file get.
use uio_linux_sample.Prelude.{
  ℕ, zero, suc, ◌+◌, ◌%◌, ◌≡◌, ◌≢◌, refl, ap, ◌∙◌, arith, Bool, false, none, some,
}
use uio_linux_sample.Prelude.Words.{pos}
use uio_linux_sample.Edu.Fops.{Open, Answer, llseek, read, write}

-- Any number of further reads, as a program makes them that reads to the end of the file.
module _ {D : Type 0} (ioread32 : D → ℕ → ℕ × D) (iowrite32 : D → ℕ → ℕ → D) where
  abbrev pub reads : ℕ → ℕ → Open D → Open D
  reads zero len s = s
  reads (suc n) len s = reads n len (read ioread32 iowrite32 false len s).1

  abbrev end_of_file : Answer
  end_of_file = record { ret = pos 0; kbuf = none }

  abbrev at : D → ℕ → Open D
  at d off = record { device = d; f_pos = off }

  end-read :
      (faults : Bool) (len : ℕ) (s : Open D)
      → s.f_pos % 4 ≢ 0
      → read ioread32 iowrite32 faults len s ≡ (end_of_file, s)
  unfolding read
  end-read faults len s h = ground arith

  reads-end : (n len : ℕ) (s : Open D) → s.f_pos % 4 ≢ 0 → reads n len s ≡ s
  reads-end zero len s h = refl
  reads-end (suc n) len s h =
      ap (λ r. reads n len r.1) (end-read false len s h) ∙ reads-end n len s h

  aligned-read :
      (len off : ℕ) (d : D)
      → off % 4 ≡ 0
      → len ≢ 0
      → read ioread32 iowrite32 false len (at d off)
        ≡ (record { ret = pos 4; kbuf = some (ioread32 d off).0 }, at (ioread32 d off).1 (off + 1))
  unfolding read
  aligned-read len off d h k = ground arith

  aligned-write :
      (word off : ℕ) (d : D)
      → off % 4 ≡ 0
      → write ioread32 iowrite32 (some word) 4 (at d off) ≡ (pos 4, at (iowrite32 d off word) off)
  unfolding write
  aligned-write word off d h = ground arith

  -- A program that reads the file from a position that is a multiple of 4, with a buffer that is
  -- not empty and that can be written, gets the 4 bytes of one register; every later read, however
  -- many it makes before, gives the end of the file and leaves the device alone.
  pub read-once :
      (n len len' off : ℕ) (d : D)
      → off % 4 ≡ 0
      → len ≢ 0
      → (read ioread32 iowrite32 false len (at d off)).0
          ≡ record { ret = pos 4; kbuf = some (ioread32 d off).0 }
        × (read ioread32 iowrite32 false len'
              (reads n len' (read ioread32 iowrite32 false len (at d off)).1)
            ≡ (end_of_file, at (ioread32 d off).1 (off + 1)))
  read-once n len len' off d h k =
      let s = at (ioread32 d off).1 (off + 1) in
      let next : (off + 1) % 4 ≢ 0 = omega (arith, h) in
      (
        ap (λ r. r.0) (aligned-read len off d h k),
        ap (λ r. read ioread32 iowrite32 false len' (reads n len' r.1)) (aligned-read len off d h k)
            ∙ (ap (read ioread32 iowrite32 false len') (reads-end n len' s next)
                ∙ end-read false len' s next),
      )

  -- A word that is written to a register that keeps what is written is read back: the write
  -- returns 4 and leaves the position, a multiple of 4 set by llseek, where it is.
  pub write-read :
      (word off len : ℕ) (s : Open D)
      → off % 4 ≡ 0
      → len ≢ 0
      → ((d : D) → (ioread32 (iowrite32 d off word) off).0 ≡ word)
      → let written = write ioread32 iowrite32 (some word) 4 (llseek off s).1 in
        (written.0 ≡ pos 4)
        × ((read ioread32 iowrite32 false len written.1).0
            ≡ record { ret = pos 4; kbuf = some word })
  write-read word off len s h k keeps =
      let e = aligned-write word off s.device h in
      (
        ap (λ r. r.0) e,
        ap (λ r. (read ioread32 iowrite32 false len r.1).0) e
            ∙ (ap (λ r. r.0) (aligned-read len off (iowrite32 s.device off word) h k)
                ∙ ap (λ w. record { ret = pos 4; kbuf = some w }) (keeps s.device)),
      )
