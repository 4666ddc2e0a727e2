-- ===== src/Tests/Azure.antt =====
-- The blob store over a service that answers every request.
use fileloft.Base.{◌≡◌, some, List, [], ◌∷◌, arith, Text, codes}
use fileloft.Azure.{Container, AzureUpload, Answer, rounds, commit_many_blobs}
use fileloft.Azure.Rounds.{commit_many_blobs-ends}
use fileloft.Tests.Codec.{to_vec, from_slice}

abbrev container : Container
container = record {
  State = Unit {0};
  put_block_blob = λ name content s. (Answer.done tt, s);
  get_content = λ name s. Answer.done [];
  list_blobs = λ prefix s. [];
  put_block = λ name block content s. (Answer.done tt, s);
  put_block_list = λ name blocks s. (Answer.done tt, s);
  delete_blob = λ name s. (Answer.done tt, s);
  to_vec_pretty = to_vec;
  from_slice = from_slice;
}

abbrev upload : AzureUpload
upload = record { id = codes "a"; prefix = [] }

abbrev sources : List Text
sources = codes "a_part_0" ∷ codes "a_part_1" ∷ []

commit_many_blobs-ends_example :
    rounds container 2 upload (codes "finalize") (codes "a") sources 0 tt
    ≡ some (commit_many_blobs container upload (codes "finalize") (codes "a") sources tt)
commit_many_blobs-ends_example =
    commit_many_blobs-ends container upload (codes "finalize") (codes "a") sources tt (omega arith)
