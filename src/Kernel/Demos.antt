-- ===== src/Kernel/Demos.antt =====
-- The demonstrations of kernel.c, which open, read and print a file, parse paths and move a stream.
-- A buffer from the heap is the list of its bytes beside its address; it is zero at first.
use kernel_play.Prelude.{
  ℕ, ◌+◌, ◌*◌, List, [], ◌∷◌, ◌++◌, length, drop, replicate, none, some, if◌then◌else◌, ◌==◌, ltb,
  is_negative,
}
use kernel_play.Prelude.Run.{Run, ok, fault, ◌>>=◌}
use kernel_play.Prelude.Codes.{literal}
use kernel_play.Memory.{Memory}
use kernel_play.Heap.{Heap, kheap_zalloc, kheap_free}
use kernel_play.Disk.{
  Drive, disk_streamer_new, disk_streamer_seek_pos, disk_streamer_read_bytes, disk_streamer_close,
}
use kernel_play.Text.{strlen, itoa, store}
use kernel_play.PathParser.{parse_path_root, free_path_root}
use kernel_play.Fat.Layout.{FatPrivate}
use kernel_play.Fat.File.{seek_set}
use kernel_play.Files.{Files, fopen, fseek, fread, fclose}
use kernel_play.Terminal.{Terminal, print_string}
use kernel_play.Volume.{Handle, fat16_fs}

-- The screen and the files, with the memory.
pub record Desk : Type 0 where
  pub terminal : Terminal
  pub files : Files FatPrivate Handle

-- `count_and_print`: the loop counts up to the terminator. `s` has 100 bytes, whose content before
-- the call of `itoa` is given.
unfoldable pub count_and_print : List ℕ → Terminal → List ℕ → Run Terminal
count_and_print s t text = do
  c ← strlen text
  digits ← itoa c s
  t1 ← print_string t (literal "Total bytes read from file: ")
  t2 ← print_string t1 digits
  print_string t2 (literal "\n")

-- The bytes that a read stores at the start of a buffer; a null pointer or a store behind the end
-- is a fault.
unfoldable pub fill_buffer : ℕ → List ℕ → List ℕ → Run (List ℕ)
fill_buffer addr buffer [] = ok buffer
fill_buffer addr buffer (b ∷ bytes) =
    if addr == 0
    then fault
    else if ltb (length buffer) (length (b ∷ bytes))
    then fault
    else ok ((b ∷ bytes) ++ drop (length (b ∷ bytes)) buffer)

-- `out[len] = '\0'`.
unfoldable pub terminate : ℕ → List ℕ → ℕ → Run (List ℕ)
terminate addr buffer len = if addr == 0 then fault else store buffer len 0

module _ (drive : Drive) (fuel : ℕ) (heap : Heap) where
  abbrev on_memory : Desk → Memory → Desk
  on_memory d m = record d { files = record d.files { memory = m } }

  -- The code behind `out:` of the two demonstrations that read.
  unfoldable pub release : Desk → ℕ → ℕ → Run Desk
  release d out fd = do
    m ← if out == 0 then ok d.files.memory else kheap_free heap d.files.memory out
    let freed : Files FatPrivate Handle = record d.files { memory = m }
    if fd == 0 then ok (record d { files = freed }) else do
      (_, files) ← fclose (fat16_fs drive fuel heap) heap freed fd
      ok (record d { files = files })

  -- One of the two rounds of `demo_fopen`.
  unfoldable pub open_and_report : Desk → List ℕ → Run Desk
  open_and_report d name = do
    (fd, files) ← fopen (fat16_fs drive fuel heap) heap d.files name (literal "r")
    if fd == 0 then ok (record d { files = files }) else do
      t1 ← print_string d.terminal (literal "found file:")
      t2 ← print_string t1 name
      t3 ← print_string t2 (literal "\n")
      (_, files') ← fclose (fat16_fs drive fuel heap) heap files fd
      ok (record { terminal = t3; files = files' })

  unfoldable pub demo_fopen : Desk → Run Desk
  demo_fopen d = do
    d' ← open_and_report d (literal "0:/aaa/bbb/hello.txt")
    open_and_report d' (literal "0:/aaa/bbb/bighello.txt")

  unfoldable pub demo_fread : List ℕ → Desk → Run Desk
  demo_fread stack d = do
    (fd, files) ←
        fopen (fat16_fs drive fuel heap) heap d.files (literal "0:/aaa/bbb/bighello.txt")
          (literal "r")
    let len : ℕ = 1024 * 1024 * 2
    (out, m) ← kheap_zalloc heap files.memory (len + 1)
    (res, bytes, files') ←
        fread (fat16_fs drive fuel heap) heap (record files { memory = m }) 1024 1024 fd
    buffer ← fill_buffer out (replicate (len + 1) 0) bytes
    if is_negative res
        then (do
          t ← print_string d.terminal (literal "Failed to read file!\n")
          release (record { terminal = t; files = files' }) out fd)
        else (do
          text ← terminate out buffer len
          t ← count_and_print stack d.terminal text
          release (record { terminal = t; files = files' }) out fd)

  -- The result of `fseek` is overwritten before it is tested.
  unfoldable pub demo_fseek : List ℕ → Desk → Run Desk
  demo_fseek stack d = do
    (fd, files) ←
        fopen (fat16_fs drive fuel heap) heap d.files (literal "0:/aaa/bbb/bighello.txt")
          (literal "r")
    let len : ℕ = 100
    (out, m) ← kheap_zalloc heap files.memory (len + 1)
    (_, files1) ← fseek (fat16_fs drive fuel heap) heap (record files { memory = m }) fd 10 seek_set
    (res, bytes, files2) ← fread (fat16_fs drive fuel heap) heap files1 100 1 fd
    buffer ← fill_buffer out (replicate (len + 1) 0) bytes
    if is_negative res
        then (do
          t ← print_string d.terminal (literal "Failed to read file!\n")
          release (record { terminal = t; files = files2 }) out fd)
        else (do
          text ← terminate out buffer len
          t ← count_and_print stack d.terminal text
          t' ← print_string t text
          release (record { terminal = t'; files = files2 }) out fd)

  -- One of the two rounds of `demo_pparser`: a root that `kheap_zalloc` gave is parsed and freed. A
  -- path that does not parse leaves no parts, which `pparser_free_path_root` follows.
  unfoldable pub parse_and_free : Desk → List ℕ → Run Desk
  parse_and_free d path = do
    (addr, m) ← kheap_zalloc heap d.files.memory 8
    (r, root, m') ← parse_path_root heap m path (record { drive_no = 0; parts = [] })
    t ←
        if is_negative r
        then print_string d.terminal (literal "Failed to parse path root!\n")
        else ok d.terminal
    if addr == 0 then fault else do
      m'' ← free_path_root heap m' addr root
      ok (on_memory (record d { terminal = t }) m'')

  unfoldable pub demo_pparser : Desk → Run Desk
  demo_pparser d = do
    d' ← parse_and_free d (literal "0:/test/ok/me.txt")
    parse_and_free d' (literal "1:/another/dir/you.txt")

  -- The byte that is read goes to a local buffer.
  unfoldable pub demo_disk_streamer : Desk → Run Desk
  demo_disk_streamer d = do
    (streamer, m) ← disk_streamer_new heap d.files.memory 0
    elim streamer [
      | none ↦ fault
      | some (addr, s) ↦ do
        let (_, moved) = disk_streamer_seek_pos s 0x201
        (_, _, _) ← disk_streamer_read_bytes drive moved 1
        m' ← disk_streamer_close heap m addr
        ok (on_memory d m')
    ]
