-- ===== src/Handler/Patch/Report.antt =====
-- What a PATCH does once its upload has been found and checked.
use fileloft.Base.{
  ℕ, ◌+◌, ◌≡◌, refl, ◌≢◌, ◌⊎◌, inl, inr, Option, none, some, ap, ◌∙◌, length, length-append,
  text_eq_refl,
}
use fileloft.Error.{Result, ok, err}
use fileloft.Exec.{pure, continue}
use fileloft.Info.Id.{UploadId}
use fileloft.Info.Codec.{Bytes}
use fileloft.Hooks.{upload_progress}
use fileloft.Crates.{Crates, ChecksumAlgorithm}
use fileloft.Store.{Reader, bytes}
use fileloft.Store.Contract.{Stored, View, update, IsWhole, appended, write_check, IsDataStore}
use fileloft.Handler.Base.{TusHandler, World, emit, TusResponse}
use fileloft.Handler.Patch.{finish_if_complete, write_and_report, patch_response}
use fileloft.Handler.Patch.Write.{
  IsVerified, Result-cases, Written, write_body_lem, finish_if_complete-view, finish_if_complete-ok,
}

pub update_self : (view : View) (id : UploadId) (o : Option Stored) → update view id o id ≡ o
update_self view id o = rw (text_eq_refl id)

pub appended-IsWhole : (e : Stored) (buf : Bytes) → IsWhole e → IsWhole (appended e buf)
appended-IsWhole e buf whole = length-append e.content buf ∙ ap (λ n. n + length buf) whole

module _ (x : Crates) (h : TusHandler) (c : IsDataStore h.store) (id : UploadId) where
  -- The chunk was appended to the upload, no other upload changed, and the answer has the new
  -- offset.
  pub record Accepted (w : World h) (e : Stored) (checksum : Option (ChecksumAlgorithm × Bytes))
      (body : Option Reader) (response : TusResponse x) (w' : World h) : Type 0 where
    pub buf : Bytes
    pub given : body ≡ some (bytes buf)
    pub verified : IsVerified x checksum buf
    pub fits : write_check e buf ≡ ok tt
    pub view :
        (j : UploadId) → c.view w'.store j ≡ update (c.view w.store) id (some (appended e buf)) j
    pub answer : response ≡ patch_response x h (appended e buf).info

  -- Every upload is as before, unless a `pre_finish` hook is there to refuse a written chunk.
  abbrev pub Refused : World h → World h → Type 0
  Refused w w' =
      ((j : UploadId) → c.view w'.store j ≡ c.view w.store j) ⊎ (h.config.hooks.pre_finish ≢ none)

  abbrev pub ReportOutcome :
      World h
      → Stored
      → Option (ChecksumAlgorithm × Bytes)
      → Option Reader
      → Result (TusResponse x) × World h
      → Type 0
  ReportOutcome w e checksum body (ok response, w') = Accepted w e checksum body response w'
  ReportOutcome w e checksum body (err why, w') = Refused w w'

  module _ (w : World h) (e : Stored) (found : c.view w.store id ≡ some e) (whole : IsWhole e) where
    module _ (checksum : Option (ChecksumAlgorithm × Bytes)) (body : Reader)
        {out : Result ℕ × World h} (p : Written x h c id w e checksum body out) where
      -- The upload after the write, and the world that the progress event leaves.
      abbrev grown : Stored
      grown = appended e p.buf

      abbrev reported : World h
      reported = (emit h (upload_progress grown.info) (record w { store = p.store })).1

      grown_found : c.view p.store id ≡ some grown
      grown_found = p.view id ∙ update_self (c.view w.store) id (some grown)

      report_written : ReportOutcome w e checksum (some body) (
          continue
            (finish_if_complete h (c.handle id) grown.info reported).0
            (λ _. pure (patch_response x h grown.info))
            (finish_if_complete h (c.handle id) grown.info reported).1)
      report_written =
          let later = appended-IsWhole e p.buf whole in
          let finished = finish_if_complete h (c.handle id) grown.info reported in
          elim (Result-cases finished.0) [
            | inl (_, fine) ↦ rw fine (record {
              buf = p.buf;
              given = ap some p.given;
              verified = p.verified;
              fits = p.fits;
              view = λ j.
                  finish_if_complete-view x h c id reported grown grown_found later j ∙ p.view j;
              answer = refl;
            })
            | inr (why, bad) ↦ rw bad (
                inr λ unhooked.
                  cc
                    (bad, finish_if_complete-ok x h c id reported grown grown_found later unhooked))
          ]

    pub write_and_report_lem :
        (checksum : Option (ChecksumAlgorithm × Bytes)) (body : Option Reader)
        → ReportOutcome w e checksum body
            (write_and_report x h (c.handle id) e.info.offset checksum body w)
    unfolding write_and_report
    write_and_report_lem checksum none = inl (λ j. refl)
    write_and_report_lem checksum (some body) =
        elim (write_body_lem x h c id w e found whole checksum body) [
          | inl p ↦ rw p.result (
              rw (c.get_info_lem id p.store (appended e p.buf) (grown_found checksum body p))
                (report_written checksum body p))
          | inr (why, refused) ↦ rw refused (inl (λ j. refl))
        ]
