-- ===== src/Manifest/Safety.antt =====
-- Reading a manifest is memory safe, whatever bytes it is read from.
use alba.Llio.Reader.{◌>>=◌}
use alba.Manifest.{Manifest}
use alba.Manifest.Fragments
