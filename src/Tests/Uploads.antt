-- ===== src/Tests/Uploads.antt =====
-- Runs of the uploads.
use mathlib.Core.Option.{some-injective}
use vault_drift.Common.{
  true, ℕ, ◌+◌, ◌≤◌, ◌<◌, ◌≡◌, refl, sym, Bool, false, Option, none, some, String, List, [], ◌∷◌,
  length, arith, ◌==◌, inl, if◌then◌else◌,
}
use vault_drift.Common.Int.{pos}
use vault_drift.Common.Dict.{lookup, insert, delete}
use vault_drift.Common.IntMap.{at, put}
use vault_drift.Chunk.Rabin.{Chunker, at_boundary, roll, new_window}
use vault_drift.Chunk.Chunker.{eof}
use vault_drift.Download.Stream.{stream_content}
use vault_drift.Garbage.Collector.{release_all}
use vault_drift.Files.{File, create_file, get_file_by_path}
use vault_drift.Files.Manifests.{Manifest}
use vault_drift.Uploads.{UploadHandler, UploadSession, completed}
use vault_drift.Uploads.Chunks.{give_back_all, give_back_all_expired}
use vault_drift.Uploads.Chunks.Counted.{refs}
use vault_drift.Uploads.Chunks.Released.{to_store, give_back_all-agrees}
use vault_drift.Garbage.Collector.{Faults}
use vault_drift.Uploads.Create.{CreateUploadRequest}
use vault_drift.Uploads.Complete.{complete_upload}
use vault_drift.Uploads.Downloaded.{fetch_from, complete_upload-download}
use vault_drift.Uploads.Requests.{Request, Step, create, upload, complete, cancel, tick, serve_all}
use vault_drift.Uploads.Requests.Held.{held}
use vault_drift.Uploads.Requests.Tracked.{serve_all-missing}
use vault_drift.Uploads.Sessions.{get_missing_chunks}
use vault_drift.Uploads.Sessions.Missing.{is_completed}
use vault_drift.Uploads.Requests.Settled.{serve_all-held}
use vault_drift.Uploads.Requests.Readable.{Drops, serve_all-IsKept, serve_all-readable}

-- A chunker that cuts after two bytes, or three at most.
abbrev tiny : Chunker
tiny = record {
  min_size = 2;
  avg_size = 2;
  max_size = 3;
  window_size = 2;
  mask = 1;
  table = record { polynomial = 11; degree = 3; out_table = []; mod_table = [] };
}

abbrev sha : List ℕ → String
sha bytes = if length bytes == 3 then "c" else if length bytes == 2 then "b" else "a"

abbrev never : String → Bool
never hash = false

abbrev fresh : UploadHandler
fresh = record {
  sessions = [];
  shelf = record { table = []; blobs = [] };
  files = [];
  manifests = [];
}

abbrev request : CreateUploadRequest
request = record {
  parent_id = "";
  name = "a.bin";
  size = pos 6;
  mime_type = "application/octet-stream";
  checksum = "";
}

abbrev no_faults : Faults
no_faults = record { put_fails = never; delete_fails = never; drop_fails = never }

abbrev fine : Request → Step
fine r = (no_faults, r)

-- `storage.Put` fails in one request, and `storage.Delete` in another one.
abbrev put_failing : Request → Step
put_failing r = (record no_faults { put_fails = λ hash. true }, r)

abbrev delete_failing : Request → Step
delete_failing r = (record no_faults { delete_fails = λ hash. true }, r)

-- Two uploads of one content, one of which fails first and is tried again; that one is completed, the other
-- cancelled.
abbrev requests : List Step
requests =
    fine (create 1 "u" (some "s") (some request))
    ∷ fine (create 1 "v" (some "t") (some request))
    ∷ put_failing (upload 2 "u" "s" (some 0) (pos 6) (eof (1 ∷ 3 ∷ 5 ∷ 4 ∷ 2 ∷ 6 ∷ [])))
    ∷ fine (upload 2 "u" "s" (some 0) (pos 6) (eof (1 ∷ 3 ∷ 5 ∷ 4 ∷ 2 ∷ 6 ∷ [])))
    ∷ fine (upload 2 "v" "t" (some 0) (pos 6) (eof (1 ∷ 3 ∷ 5 ∷ 4 ∷ 2 ∷ 6 ∷ [])))
    ∷ fine (upload 3 "v" "s" (some 0) (pos 6) (eof (9 ∷ [])))
    ∷ fine (complete 4 "u" "s" "f" (some "m"))
    ∷ delete_failing (cancel "v" "t")
    ∷ fine (tick 90000)
    ∷ []

abbrev after : UploadHandler
after = serve_all sha tiny requests fresh

one_reference_left : refs "c" after.shelf ≡ 1
unfolding lookup serve_all insert at at_boundary roll new_window put get_file_by_path create_file
    delete
one_reference_left = refl

serve_all-held_example : held "c" after ≤ refs "c" after.shelf
serve_all-held_example = serve_all-held sha tiny requests "c" fresh (omega arith)

requests-Drops : Drops "c" requests
requests-Drops = (refl, (refl, (refl, (refl, (refl, (refl, (refl, (refl, (refl, tt)))))))))

serve_all-readable_example :
    (bytes : List ℕ) × (lookup "c" after.shelf.blobs ≡ some bytes) × (sha bytes ≡ "c")
unfolding lookup serve_all insert at at_boundary roll new_window put get_file_by_path create_file
    delete
serve_all-readable_example =
    serve_all-readable sha tiny requests "c" fresh requests-Drops (omega arith) (inl refl) named
  where
    named : 0 < held "c" after
    named = omega arith

-- When `DeleteChunk` fails after `storage.Delete`, the row stays without bytes, and the next upload of the
-- content takes it for a stored chunk.
abbrev drop_failing : Request → Step
drop_failing r = (record no_faults { drop_fails = λ hash. true }, r)

abbrev losing : List Step
losing =
    fine (create 1 "v" (some "t") (some request))
    ∷ fine (upload 2 "v" "t" (some 0) (pos 6) (eof (1 ∷ 3 ∷ 5 ∷ 4 ∷ 2 ∷ 6 ∷ [])))
    ∷ drop_failing (cancel "v" "t")
    ∷ fine (create 3 "u" (some "s") (some request))
    ∷ fine (upload 4 "u" "s" (some 0) (pos 6) (eof (1 ∷ 3 ∷ 5 ∷ 4 ∷ 2 ∷ 6 ∷ [])))
    ∷ []

abbrev lost : UploadHandler
lost = serve_all sha tiny losing fresh

named_without_bytes : (held "c" lost ≡ 1) × (lookup "c" lost.shelf.blobs ≡ none)
unfolding lookup serve_all insert at at_boundary roll new_window put get_file_by_path create_file
    delete
named_without_bytes = (refl, refl)

-- The chunk of the first upload is there, and its session waits to be completed.
abbrev uploads : List Step
uploads =
    fine (create 1 "u" (some "s") (some request))
    ∷ fine (upload 2 "u" "s" (some 0) (pos 6) (eof (1 ∷ 3 ∷ 5 ∷ 4 ∷ 2 ∷ 6 ∷ [])))
    ∷ []

abbrev before : UploadHandler
before = serve_all sha tiny uploads fresh

abbrev waiting : UploadSession
waiting = record {
  user_id = "u";
  parent_id = "";
  file_name = "a.bin";
  size = 6;
  mime_type = "application/octet-stream";
  checksum = "";
  status = completed;
  created_at = 1;
  expires_at = 86401;
  chunks = (0, 6) ∷ [];
  total_chunks = 1;
  chunk_hashes = (0, "c" ∷ "b" ∷ "a" ∷ []) ∷ [];
}

abbrev pieces : ℕ → List (List ℕ)
pieces index = (1 ∷ 3 ∷ 5 ∷ []) ∷ (4 ∷ 2 ∷ []) ∷ (6 ∷ []) ∷ []

abbrev write : List ℕ → List ℕ → Option String
write written slice = none

complete_upload-download_example :
    let last = (complete_upload 4 "u" "s" "f" (some "m") before).1 in
    ((m : Manifest) × (lookup "m" last.manifests ≡ some m)
      × (m.file_id ≡ "f")
      × (stream_content (fetch_from last.shelf.blobs) write m.chunks []
          ≡ (none, 1 ∷ 3 ∷ 5 ∷ 4 ∷ 2 ∷ 6 ∷ [])))
    × ((f : File) × (lookup "f" last.files ≡ some f)
        × (f.manifest_id ≡ some "m")
        × (f.name ≡ "a.bin"))
    × (lookup "s" last.sessions ≡ none)
unfolding lookup serve_all insert at at_boundary roll new_window put get_file_by_path create_file
    delete
complete_upload-download_example =
    complete_upload-download sha write (λ written slice. refl) 4 "u" "s" "f" "m" waiting before
      pieces refl (refl, tt) (λ hash. serve_all-held sha tiny uploads hash fresh (omega arith))
      (λ hash. serve_all-IsKept sha tiny uploads hash fresh (refl, (refl, tt)) (inl refl))
      (
        (λ bytes found hashed. some-injective bytes (1 ∷ 3 ∷ 5 ∷ []) (sym found)),
        (
          (λ bytes found hashed. some-injective bytes (4 ∷ 2 ∷ []) (sym found)),
          ((λ bytes found hashed. some-injective bytes (6 ∷ []) (sym found)), tt),
        ),
      )
      refl

give_back_all-agrees_example :
    (give_back_all no_faults ("c" ∷ "c" ∷ "x" ∷ []) before.shelf
      ≡ give_back_all_expired no_faults ("c" ∷ "c" ∷ "x" ∷ []) before.shelf)
    × (to_store (give_back_all no_faults ("c" ∷ "c" ∷ "x" ∷ []) before.shelf)
        ≡ release_all no_faults ("c" ∷ "c" ∷ "x" ∷ []) (to_store before.shelf))
give_back_all-agrees_example = give_back_all-agrees no_faults ("c" ∷ "c" ∷ "x" ∷ []) before.shelf

serve_all-missing_example :
    (length (get_missing_chunks waiting) + length waiting.chunks ≡ waiting.total_chunks)
    × (is_completed waiting.status ≡ (length waiting.chunks == waiting.total_chunks))
unfolding lookup serve_all insert at at_boundary roll new_window put get_file_by_path create_file
    delete
serve_all-missing_example = serve_all-missing sha tiny uploads fresh "s" waiting refl refl
