-- ===== src/Seaweed/Served.antt =====
-- The service over the store that the main program makes for SeaweedFS.
use pot_play_storage.Service.Issued.{Issued}
use pot_play_storage.Service.Runs.{Runs}
use pot_play_storage.Http.{Http}
