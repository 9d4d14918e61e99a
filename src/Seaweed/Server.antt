-- ===== src/Seaweed/Server.antt =====
-- A filer in memory, which takes every path as it stands. It shows that the assumptions on a filer
-- can be met.
use native.Mathlib.Nat.{add-sub_cancel}
use pot_play_storage.Prelude.{
  ℕ, suc, Bytes, codes, [], ◌∷◌, ◌++◌, Option, none, some, ◌≡◌, refl, sym, ap, ◌∙◌, length,
  length-append, take, drop, arith,
}
use pot_play_storage.Strings.{trim_suffix}
use pot_play_storage.Strings.Laws.{has_suffix-append}
use pot_play_storage.Errors.{external, Result, ok}
use pot_play_storage.Backend.Memory.{Files, at, without, at-without}
use pot_play_storage.Model.Encoding.{Json, str, obj, end, field}
use pot_play_storage.Http.{
  Http, Method, get_method, post_method, put_method, delete_method, Body, no_body, form_file,
  json_body, Response,
}
use pot_play_storage.Seaweed.Filer.{IsFiler}
use pot_play_storage.Seaweed.Mapping.{KeepsBodies}

-- The path of a URL of the filer.
abbrev path_of : Bytes → Bytes → Bytes
path_of url u = drop (suc (length url)) u

abbrev content : Body → Bytes
content no_body = []
content (form_file name filename c) = c
content (json_body text) = text

abbrev reply : ℕ → Bytes → Result Response
reply status body = ok (record { status = status; body = body })

abbrev read : Option Bytes → Result Response
read none = reply 404 []
read (some c) = reply 200 c

abbrev serve : Bytes → Method → Bytes → Body → Files → Result Response × Files
serve url get_method u b s = (read (at s (path_of url u)), s)
serve url post_method u b s = (reply 201 [], (path_of url u, content b) ∷ without (path_of url u) s)
serve url put_method u b s =
    let p = trim_suffix (path_of url u) (codes "?metadata=true") in
    (reply 201 [], (p, content b) ∷ without p s)
serve url delete_method u b s = (reply 204 [], without (path_of url u) s)

-- The only object that is read here assigns the identifier "1,2" at the server "v".
abbrev assignment : Json
assignment =
    obj (field (codes "fid") (str (codes "1,2")) (field (codes "url") (str (codes "v")) end))

-- An object with one text is written out.
abbrev written : Json → Bytes
written (obj (field k (str v) end)) =
    b'{' ∷ b'"' ∷ k ++ (b'"' ∷ b':' ∷ b'"' ∷ v ++ (b'"' ∷ b'}' ∷ []))
written _ = codes "null"

abbrev pub server : Bytes → Http
server url = record {
  State = Files;
  refuses = λ u. none;
  send = λ r s. serve url r.method r.url r.body s;
  write_json = written;
  read_json = λ text. ok assignment;
  mismatch = external (codes "mismatch");
}

path_of_lem : (url p : Bytes) → path_of url (url ++ (b'/' ∷ p)) ≡ p
path_of_lem [] p = refl
path_of_lem (c ∷ url) p = path_of_lem url p

abbrev pub Every : Bytes → Type 0
Every p = Unit {0}

read-found : (o : Option Bytes) (r : Response) → read o ≡ ok r → r.status ≡ 200 → o ≡ some r.body
read-found none r sent good = absurd (ground arith)
read-found (some c) r sent good = ground arith

pub server-IsFiler : (url : Bytes) → IsFiler (server url) url Every at
unfolding at
server-IsFiler url = record {
  stored = λ p c s r name sent good. rw (path_of_lem url p) (ground arith);
  stored_other = λ p c q s name n. rw (path_of_lem url p) (ground (arith, at-without p q s));
  found = λ p s r name sent good.
      read-found (at s p) r (ap (λ (x : Bytes). read (at s x)) (sym (path_of_lem url p)) ∙ sent)
        good;
  found_keeps = λ p q s. refl;
  removed = λ p s r name sent good. rw (path_of_lem url p) (ground (arith, at-without p p s));
  absent = λ p s r name sent good. rw (path_of_lem url p) (ground (arith, at-without p p s));
  removed_other = λ p q s name n. rw (path_of_lem url p) (ground (arith, at-without p q s));
}

take_prefix : (p t : Bytes) → take (length p) (p ++ t) ≡ p
take_prefix [] t = refl
take_prefix (c ∷ p) t = ap (λ (u : Bytes). c ∷ u) (take_prefix p t)

trim_suffix_lem : (p t : Bytes) → trim_suffix (p ++ t) t ≡ p
unfolding trim_suffix
trim_suffix_lem p t =
    rw (has_suffix-append p t, length-append p t, add-sub_cancel (length p) (length t))
      (take_prefix p t)

mapped_path :
    (url p : Bytes)
    → trim_suffix
        (path_of url (url ++ (b'/' ∷ p ++ codes "?metadata=true")))
        (codes "?metadata=true")
      ≡ p
mapped_path url p =
    ap (λ (u : Bytes). trim_suffix u (codes "?metadata=true"))
      (path_of_lem url (p ++ codes "?metadata=true"))
    ∙ trim_suffix_lem p (codes "?metadata=true")

pub server-KeepsBodies : (url : Bytes) → KeepsBodies (server url) url at
unfolding at
server-KeepsBodies url = record {
  put_kept = λ p text s r sent good. rw (mapped_path url p) (ground arith);
  found = λ p s r sent good.
      read-found (at s p) r (ap (λ (x : Bytes). read (at s x)) (sym (path_of_lem url p)) ∙ sent)
        good;
}
