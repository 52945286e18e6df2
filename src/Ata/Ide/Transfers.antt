-- ===== src/Ata/Ide/Transfers.antt =====
-- kernel/ata.c: sectors read from and written to a disk that answers.
use fur_os.Prelude.{
  ℕ, zero, suc, ◌+◌, ◌*◌, ◌%◌, ◌^◌, ◌<◌, ◌≡◌, false, refl, sym, ap, ◌∙◌, Option, some, List, [],
  ◌∷◌, ◌++◌, length, arith, length-append, snoc-append,
}
use fur_os.KString.{byte_at}
use fur_os.Fs.Node.{Status, ok, status_branch}
use fur_os.Ata.Bus.{Ports, Line}
use fur_os.Ata.Ide.{
  IdeDevice, ide_wait_ready, ide_wait_drq, ide_wait_not_busy, send_command, read_words, to_bytes,
  write_words, ide_transfer_in, ide_transfer_out,
}
use fur_os.Ata.Ide.Pio.{Pio, Regs, idle, reading, writing, Speaks, address, delivered, put_words}
use fur_os.Ata.Ide.Waits.{
  seen, ready-Settles, not_busy-Settles, drq-Settles, regs_for, address-regs_for, send_command_lem,
}

-- The words of a buffer, from word `i` on.
unfoldable pub words_of : ℕ → ℕ → List ℕ → List ℕ
words_of zero i buffer = []
words_of (suc n) i buffer =
    (byte_at buffer (i * 2) % 256 + byte_at buffer (i * 2 + 1) % 256 * 256)
    ∷ words_of n (suc i) buffer

pub length-words_of : (n i : ℕ) (buffer : List ℕ) → length (words_of n i buffer) ≡ n
unfolding words_of
length-words_of zero i buffer = refl
length-words_of (suc n) i buffer = ap suc (length-words_of n (suc i) buffer)

delivered_some : (ws : List ℕ) (n : ℕ) → length ws ≡ suc n → delivered ws ≡ reading ws
delivered_some [] n h = absurd (omega (arith, h))
delivered_some (w ∷ ws) n h = refl

module _ (p : Ports) (io slave : ℕ) (k : Speaks p io slave) where
  abbrev pub View : Line p → Pio
  View l = seen p io slave k l

  read_words_lem :
      (n : ℕ) (ws : List ℕ) (l : Line p) (v : Pio)
      → length ws ≡ n
      → k.view l.hw ≡ record v { phase = delivered ws; busy = 0 }
      → ((read_words p n io l).0 ≡ ws)
        × (k.view (read_words p n io l).1.hw ≡ record v { phase = idle; busy = 0 })
  unfolding read_words
  read_words_lem zero [] l v e q = (refl, q)
  read_words_lem zero (w ∷ ws) l v e q = absurd (omega (arith, e))
  read_words_lem (suc n) [] l v e q = absurd (omega (arith, e))
  read_words_lem (suc n) (w ∷ ws) l v e q =
      let (a, b) = k.in_word l.hw w ws (rw q refl) (rw q refl) in
      let next : Line p = record l { hw = (p.inw l.hw io).1 } in
      let q' : k.view next.hw ≡ record v { phase = delivered ws; busy = 0 } =
        b ∙ ap (λ (v : Pio). record v { phase = delivered ws }) q in
      let ih = read_words_lem n ws next v (omega (arith, e)) q' in
      (ap (λ x. x ∷ (read_words p n io next).0) a ∙ ap (λ r. w ∷ r) ih.0, ih.1)

  write_words_lem :
      (n i lba : ℕ) (pre buffer : List ℕ) (l : Line p) (v : Pio)
      → length pre + suc n ≡ 256
      → k.view l.hw ≡ record v { phase = writing lba pre; busy = 0 }
      → (d : ℕ) × (d < 1000000)
        × (k.view (write_words p (suc n) i io buffer l).hw ≡ record v {
          phase = idle;
          words = put_words v.words lba (pre ++ words_of (suc n) i buffer);
          busy = d;
        })
  unfolding write_words words_of
  write_words_lem zero i lba pre buffer l v e q =
      let w : ℕ = byte_at buffer (i * 2) % 256 + byte_at buffer (i * 2 + 1) % 256 * 256 in
      let (d, lt, r) = k.out_last l.hw w lba pre (rw q refl) (rw q refl) (omega (arith, e)) in
      (
        d,
        lt,
        r
            ∙ ap
                (λ (v : Pio). record v {
                  phase = idle;
                  words = put_words v.words lba (pre ++ w ∷ []);
                  busy = d;
                })
                q,
      )
  write_words_lem (suc n) i lba pre buffer l v e q =
      let w : ℕ = byte_at buffer (i * 2) % 256 + byte_at buffer (i * 2 + 1) % 256 * 256 in
      let r = k.out_word l.hw w lba pre (rw q refl) (rw q refl) (omega (arith, e)) in
      let next : Line p = record l { hw = p.outw l.hw io w } in
      let q' : k.view next.hw ≡ record v { phase = writing lba (pre ++ w ∷ []); busy = 0 } =
        r ∙ ap (λ (v : Pio). record v { phase = writing lba (pre ++ w ∷ []) }) q in
      let (d, lt, s) =
        write_words_lem n (suc i) lba (pre ++ w ∷ []) buffer next v
          (omega (arith, e, length-append pre (w ∷ []))) q' in
      (
        d,
        lt,
        s
            ∙ ap (λ ws. record v { phase = idle; words = put_words v.words lba ws; busy = d })
                (snoc-append pre w (words_of (suc n) (suc i) buffer)),
      )

  -- The disk is ready for a command and reports no failure, and its sectors are whole.
  pub record IsServing (l : Line p) : Type 0 where
    pub phase : (View l).phase ≡ idle
    pub patient : (View l).busy < 1000000
    pub sound : (View l).failed ≡ false
    pub whole : (j : ℕ) → j < k.capacity → length ((View l).words j) ≡ 256

module _ (p : Ports) (dev : IdeDevice) (k : Speaks p dev.io_base dev.slave) where
  pub ide_transfer_in-serves :
      (lba : ℕ) (l : Line p)
      → IsServing p dev.io_base dev.slave k l
      → lba % 2 ^ 28 < k.capacity
      → ((ide_transfer_in p dev lba l).0 ≡ some (to_bytes ((k.view l.hw).words (lba % 2 ^ 28))))
        × (k.view (ide_transfer_in p dev lba l).1.hw ≡ record (k.view l.hw) {
          regs = regs_for p dev.io_base dev.slave k lba;
          phase = idle;
          busy = 0;
        })
  unfolding ide_transfer_in
  ide_transfer_in-serves lba l s lt =
      let io : ℕ = dev.io_base in
      let slave : ℕ = dev.slave in
      let v : Pio = k.view l.hw in
      let ready : Status × Line p = ide_wait_ready p io l in
      let (ok1, q1) = ready-Settles p io slave k l s.sound s.patient in
      let sent : Line p = send_command p dev lba 0x20 ready.1 in
      let (d, less, q2) =
        send_command_lem p io slave k dev lba 0x20 ready.1 refl refl (rw q1 refl) (rw q1 s.phase)
          (rw q1 s.sound) lt in
      let drq : Status × Line p = ide_wait_drq p io sent in
      let (ok2, q3) =
        drq-Settles p io slave k sent (rw q2 refl) (rw q2 (rw q1 s.sound)) (rw q2 less) in
      let ws : List ℕ = v.words (lba % 2 ^ 28) in
      let regs : Regs = regs_for p io slave k lba in
      let q4 : k.view sent.hw
          ≡ record v { regs = regs; phase = reading (v.words (address regs)); busy = d } =
        q2
        ∙ ap
            (λ (v : Pio). record v {
              phase = reading (v.words (address regs));
              regs = regs;
              busy = d;
            })
            q1 in
      let e : reading (v.words (address regs)) ≡ delivered ws =
        ap (λ j. reading (v.words j)) (address-regs_for p io slave k lba)
        ∙ sym (delivered_some ws 255 (s.whole (lba % 2 ^ 28) lt)) in
      let q5 : k.view drq.1.hw ≡ record v { regs = regs; phase = delivered ws; busy = 0 } =
        q3
        ∙ ap (λ (v : Pio). record v { busy = 0 }) q4
        ∙ ap (λ f. record v { regs = regs; phase = f; busy = 0 }) e in
      let (got, q6) =
        read_words_lem p io slave k 256 ws drq.1 (record v { regs = regs })
          (s.whole (lba % 2 ^ 28) lt) q5 in
      let P : Option (List ℕ) × Line p → Type 0 = λ r.
        (r.0 ≡ some (to_bytes ws))
        × (k.view r.1.hw ≡ record v { regs = regs; phase = idle; busy = 0 }) in
      status_branch P ready.0
        (λ r.
          status_branch P drq.0 (λ r. (ap (λ ws. some (to_bytes ws)) got, q6))
            (λ r. absurd (cc (r, ok2))))
        (λ r. absurd (cc (r, ok1)))

  pub ide_transfer_out-serves :
      (lba : ℕ) (buffer : List ℕ) (l : Line p)
      → IsServing p dev.io_base dev.slave k l
      → lba % 2 ^ 28 < k.capacity
      → ((ide_transfer_out p dev lba buffer l).0 ≡ ok)
        × (k.view (ide_transfer_out p dev lba buffer l).1.hw ≡ record (k.view l.hw) {
          regs = regs_for p dev.io_base dev.slave k lba;
          phase = idle;
          words = put_words (k.view l.hw).words (lba % 2 ^ 28) (words_of 256 0 buffer);
          busy = 0;
        })
  unfolding ide_transfer_out
  ide_transfer_out-serves lba buffer l s lt =
      let io : ℕ = dev.io_base in
      let slave : ℕ = dev.slave in
      let v : Pio = k.view l.hw in
      let ready : Status × Line p = ide_wait_ready p io l in
      let (ok1, q1) = ready-Settles p io slave k l s.sound s.patient in
      let sent : Line p = send_command p dev lba 0x30 ready.1 in
      let (d, less, q2) =
        send_command_lem p io slave k dev lba 0x30 ready.1 refl refl (rw q1 refl) (rw q1 s.phase)
          (rw q1 s.sound) lt in
      let drq : Status × Line p = ide_wait_drq p io sent in
      let (ok2, q3) =
        drq-Settles p io slave k sent (rw q2 refl) (rw q2 (rw q1 s.sound)) (rw q2 less) in
      let ws : List ℕ = words_of 256 0 buffer in
      let regs : Regs = regs_for p io slave k lba in
      let q4 : k.view sent.hw
          ≡ record v { regs = regs; phase = writing (address regs) []; busy = d } =
        q2
        ∙ ap (λ (v : Pio). record v { phase = writing (address regs) []; regs = regs; busy = d })
            q1 in
      let q5 : k.view drq.1.hw
          ≡ record v { regs = regs; phase = writing (lba % 2 ^ 28) []; busy = 0 } =
        q3
        ∙ ap (λ (v : Pio). record v { busy = 0 }) q4
        ∙ ap (λ j. record v { regs = regs; phase = writing j []; busy = 0 })
            (address-regs_for p io slave k lba) in
      let written : Line p = write_words p 256 0 io buffer drq.1 in
      let (d', lt', q6) =
        write_words_lem p io slave k 255 0 (lba % 2 ^ 28) [] buffer drq.1 (record v { regs = regs })
          refl q5 in
      let complete : Status × Line p = ide_wait_not_busy p io written in
      let (ok3, q7) = not_busy-Settles p io slave k written (rw q6 s.sound) (rw q6 lt') in
      let P : Status × Line p → Type 0 = λ r.
        (r.0 ≡ ok)
        × (k.view r.1.hw ≡ record v {
          regs = regs;
          phase = idle;
          words = put_words v.words (lba % 2 ^ 28) ws;
          busy = 0;
        }) in
      status_branch P ready.0
        (λ r.
          status_branch P drq.0
            (λ r.
              status_branch P complete.0
                (λ r. (refl, q7 ∙ ap (λ (v : Pio). record v { busy = 0 }) q6))
                (λ r. absurd (cc (r, ok3))))
            (λ r. absurd (cc (r, ok2))))
        (λ r. absurd (cc (r, ok1)))
