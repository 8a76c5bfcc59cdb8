-- ===== src/Debug/MemoryLaws.antt =====
-- The commands `m` and `M` over the memory of the simulator (src/debug_server.C).
use dimebox.Common.{
  ℕ, zero, suc, true, false, ◌≡◌, ◌<◌, ◌≤◌, refl, arith, ap, ◌∙◌, ◌&&◌, ◌+◌, ◌-◌, ◌^◌, leb, some,
  List, [], ◌∷◌, ◌++◌,
}
use dimebox.Rsp.Text.{Text, codes, length, hex2}
use dimebox.Rsp.Command.{Reply, response}
use dimebox.Memory.{Memory, value}
use dimebox.Memory.Devices.{Buffer}
use dimebox.Memory.Physical.{read_physical_memory, write_physical_memory}
use dimebox.Memory.RoundTrip.{IsConfigured, is_silent, read_physical_memory-write_physical_memory}
use dimebox.Debug.Session.{Session}
use dimebox.Debug.ValueLaws.{scan_x-hex2}
use dimebox.Debug.Memory.{
  spell_bytes, byte_at, bytes, cons, scan_bytes, read_bytes, write_bytes, write_scanned, read_reply,
  write_reply,
}
use dimebox.Debug.Port.{port}

-- The bytes from `i` on.
abbrev pub listed : ℕ → ℕ → Buffer → List ℕ
listed zero i f = []
listed (suc n) i f = f i ∷ listed n (i + 1) f

scan_bytes-step :
    (n b : ℕ) (rest : Text)
    → b < 256
    → scan_bytes (suc n) (some (hex2 b ++ rest)) ≡ cons b (scan_bytes n (some rest))
unfolding scan_bytes hex2
scan_bytes-step n b rest small =
    let scanned = scan_x-hex2 b rest small in
    let long : leb 2 (length (hex2 b ++ rest)) ≡ true = ground arith in
    rw (scan_bytes, scanned, long) (ap (λ (v : ℕ). cons v (scan_bytes n (some rest))) (omega arith))

pub scan_bytes-spelled :
    (n i : ℕ) (f : Buffer)
    → ((k : ℕ) → f k < 256)
    → scan_bytes n (some (spell_bytes n i f)) ≡ bytes (listed n i f)
unfolding scan_bytes spell_bytes
scan_bytes-spelled zero i f small = refl
scan_bytes-spelled (suc n) i f small =
    scan_bytes-step n (f i) (spell_bytes n (i + 1) f) (small i)
    ∙ ap (cons (f i)) (scan_bytes-spelled n (i + 1) f small)

byte_at-listed : (n i k : ℕ) (f : Buffer) → k < n → byte_at (listed n i f) k ≡ f (i + k)
byte_at-listed zero i k f h = omega arith
byte_at-listed (suc n) i zero f h = ap f (omega arith)
byte_at-listed (suc n) i (suc k) f h =
    byte_at-listed n (i + 1) k f (omega arith) ∙ ap f (omega arith)

spell_bytes-same :
    (n i : ℕ) (f g : Buffer)
    → ((k : ℕ) → k < i + n → f k ≡ g k)
    → spell_bytes n i f ≡ spell_bytes n i g
unfolding spell_bytes
spell_bytes-same zero i f g same = refl
spell_bytes-same (suc n) i f g same = λ j.
    hex2 (same i (omega arith) j) ++ spell_bytes-same n (i + 1) f g (λ k h. same k (omega arith)) j

module _ (rand : ℕ → ℕ) where
  write_bytes-returned :
      (a n : ℕ) (f : Buffer) (s : Session Memory) (t : Memory)
      → ((k : ℕ) → f k < 256)
      → 0 < n
      → n < 2 ^ 31
      → write_physical_memory rand a n (byte_at (listed n 0 f)) false false s.memory ≡ (value 0, t)
      → write_bytes (port rand) a n (some (b':' ∷ spell_bytes n 0 f)) s
        ≡ (response (codes "OK"), record s { memory = t })
  unfolding write_bytes write_scanned write_reply port
  write_bytes-returned a n f s t bounded some_bytes small written =
      let positive : (leb 1 n && leb n (2 ^ 31 - 1)) ≡ true = ground arith in
      rw (write_bytes, positive, scan_bytes-spelled n 0 f bounded, write_scanned, written) refl

  read_bytes-returned :
      (a n : ℕ) (mbuf : Buffer) (s : Session Memory) (t : Memory)
      → 0 < n
      → n < 2 ^ 31
      → read_physical_memory rand a n (λ i. 0) false true s.memory ≡ (value (0, mbuf), t)
      → read_bytes (port rand) a n s ≡ (response (spell_bytes n 0 mbuf), record s { memory = t })
  unfolding read_bytes read_reply port
  read_bytes-returned a n mbuf s t some_bytes small got =
      let positive : (leb 1 n && leb n (2 ^ 31 - 1)) ≡ true = ground arith in
      rw (read_bytes, positive, got) refl

  -- From the address, the length and the text of the bytes on: 1 to 32 bytes that are written, to addresses that no device has, are what it then reads from
  -- there, byte for byte, in the memory that the simulator sets up.
  pub read_bytes-write_bytes :
      (a n : ℕ) (f : Buffer) (s : Session Memory)
      → IsConfigured s.memory
      → is_silent a s.memory.devices ≡ true
      → ((k : ℕ) → f k < 256)
      → 0 < n
      → n ≤ 32
      → a + n ≤ 2 ^ 32
      → (let (reply, t) = write_bytes (port rand) a n (some (b':' ∷ spell_bytes n 0 f)) s in
          (reply ≡ response (codes "OK"))
          × ((read_bytes (port rand) a n t).0 ≡ response (spell_bytes n 0 f)))
  read_bytes-write_bytes a n f s c silent bounded some_bytes small bound =
      let buffer = byte_at (listed n 0 f) in
      let (m, mbuf, after, written, got, same) =
        read_physical_memory-write_physical_memory rand a n buffer (λ i. 0) false false true
          s.memory c silent some_bytes small bound in
      let replied = write_bytes-returned a n f s m bounded some_bytes (omega arith) written in
      (
        ap (λ (r : Reply × Session Memory). r.0) replied,
        ap (λ (r : Reply × Session Memory). (read_bytes (port rand) a n r.1).0) replied
            ∙ ap (λ (r : Reply × Session Memory). r.0)
                (read_bytes-returned a n mbuf (record s { memory = m }) after some_bytes
                  (omega arith) got)
            ∙ ap response (
                spell_bytes-same n 0 mbuf f (λ k h.
                  let inside : k < n = omega arith in
                  same k inside ∙ byte_at-listed n 0 k f inside ∙ ap f (omega arith))),
      )
