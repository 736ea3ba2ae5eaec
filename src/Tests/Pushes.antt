-- ===== src/Tests/Pushes.antt =====
-- A response pushed, received and returned, for each of the four clients.
use proxyot.Prelude.{◌≡◌, ◌≢◌, arith, refl, some, [], ◌∷◌}
use proxyot.Prelude.Equal.{bytes_equal_refl}
use proxyot.Prelude.Result.{panic, bad_assertion}
use proxyot.Crypto.{Bytes}
use proxyot.Curve.{g1, g2}
use proxyot.Protocol.{CidLib, Response, ot_choice, pre_re_encrypt, stor_upload, stor_download}
use proxyot.Protocol.Ot.{OtChoice, send_choice}
use proxyot.Protocol.Pre.{PreArgs, send_re_encrypt}
use proxyot.Protocol.Storage.{
  UploadTicket, DownloadTicket, send_upload_request, send_download_request,
}
use proxyot.Protocol.Pool.{
  message, returned, Pool, new_message_pool, register, look_up, send, close, receive, unregister,
  Reachable, start, after, wait_registers, push_finds, push_sends, push_closes, wait_receives,
  wait_returns,
}
use proxyot.Protocol.Responses.{
  ot_choice_response, pre_re_encrypt_response, stor_upload_response, stor_download_response,
  IsPushed, choice, re_encryption, upload, download, waited, on_choice_response,
  on_re_encrypt_response, on_upload_response, on_download_response,
}
use proxyot.Protocol.Responses.Assertions.{
  choice_assertion, re_encrypt_assertion, upload_assertion, download_assertion,
}
use proxyot.Tests.Toy.{toy, z7}

abbrev done : Bytes → Response → Pool Response
done id x =
    unregister 0 (message x)
      (receive 0 x (close 0 0 (send 0 0 x (look_up 0 id x 0 (register id new_message_pool)))))

done-Reachable : (id : Bytes) (x : Response) → IsPushed id x → Reachable IsPushed (done id x)
unfolding new_message_pool register look_up send close receive unregister
done-Reachable id x h =
    after
      (after
        (after
          (after
            (after (after start (wait_registers id refl refl))
              (push_finds 0 id x 0 refl h (ground (arith, bytes_equal_refl id))))
            (push_sends 0 id 0 x (ground arith) refl refl))
          (push_closes 0 0 (ground arith) refl))
        (wait_receives 0 x (ground arith) (ground arith)))
      (wait_returns 0 (message x) (ground arith) (ground arith))

done-returned : (id : Bytes) (x : Response) → (done id x).waiters 0 ≡ returned (message x)
unfolding new_message_pool register look_up send close receive unregister
done-returned id x = ground arith

done-protocol : (id : Bytes) (x : Response) → (done id x).protocol 0 ≡ id
unfolding new_message_pool register look_up send close receive unregister
done-protocol id x = ground arith

abbrev texts : CidLib
texts = record { Cid = Bytes; decode = some; to_string = λ c. c }

abbrev chosen : OtChoice ⦃bn = toy⦄ texts
chosen = record { cid = 1 ∷ []; owner = g1 (z7 3); y = g1 (z7 4); l = g1 (z7 5) }

abbrev choice_answer : Response
choice_answer = ot_choice 3 []

choice_pushed : IsPushed ot_choice_response choice_answer
unfolding on_choice_response
choice_pushed = choice (some (3, [])) refl

choice_assertion_example :
    send_choice ⦃bn = toy⦄ texts (λ req. waited [] (message choice_answer)) chosen
    ≢ panic bad_assertion
choice_assertion_example =
    choice_assertion ⦃bn = toy⦄ texts (done ot_choice_response choice_answer) 0 []
      (message choice_answer) chosen (done-Reachable ot_choice_response choice_answer choice_pushed)
      (done-returned ot_choice_response choice_answer)
      (done-protocol ot_choice_response choice_answer)

abbrev re_keys : PreArgs ⦃bn = toy⦄ texts
re_keys = record { cid = 1 ∷ []; l_prime = g1 (z7 3); re_keys = g2 (z7 4) ∷ []; tx_id = 2 ∷ [] }

abbrev pre_answer : Response
pre_answer = pre_re_encrypt 3 []

pre_pushed : IsPushed pre_re_encrypt_response pre_answer
unfolding on_re_encrypt_response
pre_pushed = re_encryption (some (3, [])) refl

re_encrypt_assertion_example :
    send_re_encrypt ⦃bn = toy⦄ texts (λ req. waited [] (message pre_answer)) re_keys
    ≢ panic bad_assertion
re_encrypt_assertion_example =
    re_encrypt_assertion ⦃bn = toy⦄ texts (done pre_re_encrypt_response pre_answer) 0 []
      (message pre_answer) re_keys (done-Reachable pre_re_encrypt_response pre_answer pre_pushed)
      (done-returned pre_re_encrypt_response pre_answer)
      (done-protocol pre_re_encrypt_response pre_answer)

abbrev up : UploadTicket ⦃bn = toy⦄ texts
up = record { owner = g1 (z7 3); set = 1; cid = 1 ∷ []; size = 100 }

abbrev up_answer : Response
up_answer = stor_upload 0 [] (9 ∷ [])

up_pushed : IsPushed stor_upload_response up_answer
unfolding on_upload_response
up_pushed = upload (some (0, [], 9 ∷ [])) refl

upload_assertion_example :
    send_upload_request ⦃bn = toy⦄ texts (λ req. waited [] (message up_answer)) up
    ≢ panic bad_assertion
upload_assertion_example =
    upload_assertion ⦃bn = toy⦄ texts (done stor_upload_response up_answer) 0 [] (message up_answer)
      up (done-Reachable stor_upload_response up_answer up_pushed)
      (done-returned stor_upload_response up_answer) (done-protocol stor_upload_response up_answer)

abbrev down : DownloadTicket ⦃bn = toy⦄ texts
down = record { owner = g1 (z7 3); cid = 1 ∷ []; tx_id = 2 ∷ [] }

abbrev down_answer : Response
down_answer = stor_download 0 [] (9 ∷ [])

down_pushed : IsPushed stor_download_response down_answer
unfolding on_download_response
down_pushed = download (some (0, [], 9 ∷ [])) refl

download_assertion_example :
    send_download_request ⦃bn = toy⦄ texts (λ req. waited [] (message down_answer)) down
    ≢ panic bad_assertion
download_assertion_example =
    download_assertion ⦃bn = toy⦄ texts (done stor_download_response down_answer) 0 []
      (message down_answer) down (done-Reachable stor_download_response down_answer down_pushed)
      (done-returned stor_download_response down_answer)
      (done-protocol stor_download_response down_answer)
