-- ===== src/Billing/Receipt/Key.antt =====
-- Loading the key (backend/internal/receipt/receipt.go). The file system and the random source are
-- a parameter over a world.
use gateway_llm.Prelude.{
  String, ◌≡◌, refl, true, false, not, ◌&&◌, none, some, Option, length, ◌==◌, str_eq,
  if◌then◌else◌,
}
use gateway_llm.Billing.Receipt.{Bytes}

-- os.ReadFile: the content, or an error that os.IsNotExist accepts, or another.
pub data Read : Type 0 where
  content : String → Read
  not_exist : Read
  unreadable : String → Read

pub data Loaded : Type 0 where
  loaded : Bytes → Loaded
  failed : String → Loaded

pub record Files (W : Type 0) : Type 0 where
  pub read_file : String → W → Read
  pub generate_key : W → Option Bytes × W
  pub dir : String → String
  pub mkdir_all : String → W → W
  pub write_file : String → String → W → Option W
  pub encode : Bytes → String
  pub decode : String → Option Bytes

-- What is relied on: a file that was written is read back, base64 decodes what it encoded, and a
-- generated key has the size of a private key.
pub record IsSound {W : Type 0} (files : Files W) : Type 0 where
  pub reads_back :
      (path text : String) (w w' : W)
      → files.write_file path text w ≡ some w'
      → files.read_file path w' ≡ content text
  pub decodes : (b : Bytes) → files.decode (files.encode b) ≡ some b
  pub key_size : (w : W) (key : Bytes) → (files.generate_key w).0 ≡ some key → length key ≡ 64

module _ {W : Type 0} (files : Files W) where
  check_size : Option Bytes → Loaded
  check_size none = failed "decode key"
  check_size (some raw) = if length raw == 64 then loaded raw else failed "invalid key size"

  -- The directory is made if the path has one, and its error is dropped.
  make_dir : String → W → W
  make_dir path w =
      let dir = files.dir path in
      if not (str_eq dir "") && not (str_eq dir ".") then files.mkdir_all dir w else w

  written : Bytes → W → Option W → Loaded × W
  written key w none = (failed "write", w)
  written key w (some w') = (loaded key, w')

  keep_key : String → Option Bytes × W → Loaded × W
  unfolding make_dir written
  keep_key path (none, w) = (failed "generate", w)
  keep_key path (some key, w) =
      let w' = make_dir path w in written key w' (files.write_file path (files.encode key) w')

  only_key : Option Bytes × W → Loaded × W
  only_key (none, w) = (failed "generate", w)
  only_key (some key, w) = (loaded key, w)

  from_file : String → Read → W → Loaded × W
  unfolding check_size keep_key
  from_file path (content text) w = (check_size (files.decode text), w)
  from_file path not_exist w = keep_key path (files.generate_key w)
  from_file path (unreadable message) w = (failed message, w)

  -- LoadOrGenerateKey
  unfoldable pub load_or_generate_key : String → W → Loaded × W
  unfolding from_file only_key
  load_or_generate_key path w =
      if str_eq path ""
      then only_key (files.generate_key w)
      else from_file path (files.read_file path w) w

module _ {W : Type 0} (files : Files W) (sound : IsSound files) where
  check_size_lem :
      (key : Bytes)
      → length key ≡ 64
      → check_size files (files.decode (files.encode key)) ≡ loaded key
  unfolding check_size
  check_size_lem key h =
      rw (sound.decodes key) (let e : (length key == 64) ≡ true = rw h refl in rw e refl)

  reload_written :
      (path : String) (key k : Bytes) (w w' : W) (o : Option W)
      → str_eq path "" ≡ false
      → length key ≡ 64
      → files.write_file path (files.encode key) w ≡ o
      → written files key w o ≡ (loaded k, w')
      → load_or_generate_key files path w' ≡ (loaded k, w')
  unfolding written load_or_generate_key from_file
  reload_written path key k w w' none named size e h = cc
  reload_written path key k w w' (some w2) named size e h =
      let same : w2 ≡ w' = cc in
      let key_same : key ≡ k = cc in
      rw (named, ← same, sound.reads_back path (files.encode key) w w2 e)
        (rw (check_size_lem key size, key_same) refl)

  reload_kept :
      (path : String) (k : Bytes) (w w' : W) (key : Option Bytes)
      → str_eq path "" ≡ false
      → (files.generate_key w).0 ≡ key
      → keep_key files path (key, (files.generate_key w).1) ≡ (loaded k, w')
      → load_or_generate_key files path w' ≡ (loaded k, w')
  unfolding keep_key
  reload_kept path k w w' none named made h = cc
  reload_kept path k w w' (some key) named made h =
      let dir = make_dir files path (files.generate_key w).1 in
      reload_written path key k dir w' _ named (sound.key_size w key made) refl h

  reload_read :
      (path : String) (k : Bytes) (w w' : W) (r : Read)
      → str_eq path "" ≡ false
      → files.read_file path w ≡ r
      → from_file files path r w ≡ (loaded k, w')
      → load_or_generate_key files path w' ≡ (loaded k, w')
  unfolding from_file load_or_generate_key
  reload_read path k w w' (content text) named e h =
      let same : w ≡ w' = cc in rw (named, ← same, e) (rw (← same) at h)
  reload_read path k w w' not_exist named e h = reload_kept path k w w' _ named refl h
  reload_read path k w w' (unreadable message) named e h = cc

  -- A call of LoadOrGenerateKey with a path that gives a key, read from the file or generated and
  -- written there, leaves a file from which the next call gives the same key and changes nothing,
  -- where a written file is read back, base64 decodes what it encoded and a generated key has 64
  -- bytes.
  pub load_or_generate_key-reload :
      (path : String) (key : Bytes) (w w' : W)
      → str_eq path "" ≡ false
      → load_or_generate_key files path w ≡ (loaded key, w')
      → load_or_generate_key files path w' ≡ (loaded key, w')
  load_or_generate_key-reload path key w w' named h =
      reload_read path key w w' (files.read_file path w) named refl
        (unfold load_or_generate_key in rw named at h)
