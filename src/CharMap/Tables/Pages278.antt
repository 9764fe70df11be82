-- ===== src/CharMap/Tables/Pages278.antt =====
-- Tables of libtnX/transmaps.h: code pages 278, 280, 284, 285.
use linux_sna.Base.{[], ◌∷◌, Bytes}

-- iso_8859_1_to_ibm278
abbrev pub iso_8859_1_to_ibm278 : Bytes
iso_8859_1_to_ibm278 =
    0 ∷ 1 ∷ 2 ∷ 3 ∷ 55 ∷ 45 ∷ 46 ∷ 47 ∷ 22 ∷ 5 ∷ 37 ∷ 11 ∷ 12 ∷ 13 ∷ 14 ∷ 15 ∷ 16 ∷ 17 ∷ 18 ∷ 19
    ∷ 60 ∷ 61 ∷ 50 ∷ 38 ∷ 24 ∷ 25 ∷ 63 ∷ 39 ∷ 28 ∷ 29 ∷ 30 ∷ 31 ∷ 64 ∷ 79 ∷ 127 ∷ 99 ∷ 103 ∷ 108
    ∷ 80 ∷ 125 ∷ 77 ∷ 93 ∷ 92 ∷ 78 ∷ 107 ∷ 96 ∷ 75 ∷ 97 ∷ 240 ∷ 241 ∷ 242 ∷ 243 ∷ 244 ∷ 245 ∷ 246
    ∷ 247 ∷ 248 ∷ 249 ∷ 122 ∷ 94 ∷ 76 ∷ 126 ∷ 110 ∷ 111 ∷ 236 ∷ 193 ∷ 194 ∷ 195 ∷ 196 ∷ 197 ∷ 198
    ∷ 199 ∷ 200 ∷ 201 ∷ 209 ∷ 210 ∷ 211 ∷ 212 ∷ 213 ∷ 214 ∷ 215 ∷ 216 ∷ 217 ∷ 226 ∷ 227 ∷ 228 ∷ 229
    ∷ 230 ∷ 231 ∷ 232 ∷ 233 ∷ 181 ∷ 224 ∷ 159 ∷ 95 ∷ 109 ∷ 81 ∷ 129 ∷ 130 ∷ 131 ∷ 132 ∷ 133 ∷ 134
    ∷ 135 ∷ 136 ∷ 137 ∷ 145 ∷ 146 ∷ 147 ∷ 148 ∷ 149 ∷ 150 ∷ 151 ∷ 152 ∷ 153 ∷ 162 ∷ 163 ∷ 164 ∷ 165
    ∷ 166 ∷ 167 ∷ 168 ∷ 169 ∷ 67 ∷ 187 ∷ 71 ∷ 220 ∷ 7 ∷ 32 ∷ 33 ∷ 34 ∷ 35 ∷ 36 ∷ 21 ∷ 6 ∷ 23 ∷ 40
    ∷ 41 ∷ 42 ∷ 43 ∷ 44 ∷ 9 ∷ 10 ∷ 27 ∷ 48 ∷ 49 ∷ 26 ∷ 51 ∷ 52 ∷ 53 ∷ 54 ∷ 8 ∷ 56 ∷ 57 ∷ 58 ∷ 59 ∷ 4
    ∷ 20 ∷ 62 ∷ 255 ∷ 65 ∷ 170 ∷ 176 ∷ 177 ∷ 90 ∷ 178 ∷ 204 ∷ 74 ∷ 189 ∷ 180 ∷ 154 ∷ 138 ∷ 186 ∷ 202
    ∷ 175 ∷ 188 ∷ 144 ∷ 143 ∷ 234 ∷ 250 ∷ 190 ∷ 160 ∷ 182 ∷ 179 ∷ 157 ∷ 218 ∷ 155 ∷ 139 ∷ 183 ∷ 184
    ∷ 185 ∷ 171 ∷ 100 ∷ 101 ∷ 98 ∷ 102 ∷ 123 ∷ 91 ∷ 158 ∷ 104 ∷ 116 ∷ 113 ∷ 114 ∷ 115 ∷ 120 ∷ 117
    ∷ 118 ∷ 119 ∷ 172 ∷ 105 ∷ 237 ∷ 238 ∷ 235 ∷ 239 ∷ 124 ∷ 191 ∷ 128 ∷ 253 ∷ 254 ∷ 251 ∷ 252 ∷ 173
    ∷ 174 ∷ 89 ∷ 68 ∷ 69 ∷ 66 ∷ 70 ∷ 192 ∷ 208 ∷ 156 ∷ 72 ∷ 84 ∷ 121 ∷ 82 ∷ 83 ∷ 88 ∷ 85 ∷ 86 ∷ 87
    ∷ 140 ∷ 73 ∷ 205 ∷ 206 ∷ 203 ∷ 207 ∷ 106 ∷ 225 ∷ 112 ∷ 221 ∷ 222 ∷ 219 ∷ 161 ∷ 141 ∷ 142 ∷ 223
    ∷ []

-- ibm278_to_iso_8859_1
abbrev pub ibm278_to_iso_8859_1 : Bytes
ibm278_to_iso_8859_1 =
    0 ∷ 1 ∷ 2 ∷ 3 ∷ 156 ∷ 9 ∷ 134 ∷ 127 ∷ 151 ∷ 141 ∷ 142 ∷ 11 ∷ 12 ∷ 13 ∷ 14 ∷ 15 ∷ 16 ∷ 17 ∷ 18
    ∷ 19 ∷ 157 ∷ 133 ∷ 8 ∷ 135 ∷ 24 ∷ 25 ∷ 146 ∷ 143 ∷ 28 ∷ 29 ∷ 30 ∷ 31 ∷ 128 ∷ 129 ∷ 130 ∷ 131
    ∷ 132 ∷ 10 ∷ 23 ∷ 27 ∷ 136 ∷ 137 ∷ 138 ∷ 139 ∷ 140 ∷ 5 ∷ 6 ∷ 7 ∷ 144 ∷ 145 ∷ 22 ∷ 147 ∷ 148
    ∷ 149 ∷ 150 ∷ 4 ∷ 152 ∷ 153 ∷ 154 ∷ 155 ∷ 20 ∷ 21 ∷ 158 ∷ 26 ∷ 32 ∷ 160 ∷ 226 ∷ 123 ∷ 224 ∷ 225
    ∷ 227 ∷ 125 ∷ 231 ∷ 241 ∷ 167 ∷ 46 ∷ 60 ∷ 40 ∷ 43 ∷ 33 ∷ 38 ∷ 96 ∷ 234 ∷ 235 ∷ 232 ∷ 237 ∷ 238
    ∷ 239 ∷ 236 ∷ 223 ∷ 164 ∷ 197 ∷ 42 ∷ 41 ∷ 59 ∷ 94 ∷ 45 ∷ 47 ∷ 194 ∷ 35 ∷ 192 ∷ 193 ∷ 195 ∷ 36
    ∷ 199 ∷ 209 ∷ 246 ∷ 44 ∷ 37 ∷ 95 ∷ 62 ∷ 63 ∷ 248 ∷ 201 ∷ 202 ∷ 203 ∷ 200 ∷ 205 ∷ 206 ∷ 207 ∷ 204
    ∷ 233 ∷ 58 ∷ 196 ∷ 214 ∷ 39 ∷ 61 ∷ 34 ∷ 216 ∷ 97 ∷ 98 ∷ 99 ∷ 100 ∷ 101 ∷ 102 ∷ 103 ∷ 104 ∷ 105
    ∷ 171 ∷ 187 ∷ 240 ∷ 253 ∷ 254 ∷ 177 ∷ 176 ∷ 106 ∷ 107 ∷ 108 ∷ 109 ∷ 110 ∷ 111 ∷ 112 ∷ 113 ∷ 114
    ∷ 170 ∷ 186 ∷ 230 ∷ 184 ∷ 198 ∷ 93 ∷ 181 ∷ 252 ∷ 115 ∷ 116 ∷ 117 ∷ 118 ∷ 119 ∷ 120 ∷ 121 ∷ 122
    ∷ 161 ∷ 191 ∷ 208 ∷ 221 ∷ 222 ∷ 174 ∷ 162 ∷ 163 ∷ 165 ∷ 183 ∷ 169 ∷ 91 ∷ 182 ∷ 188 ∷ 189 ∷ 190
    ∷ 172 ∷ 124 ∷ 175 ∷ 168 ∷ 180 ∷ 215 ∷ 228 ∷ 65 ∷ 66 ∷ 67 ∷ 68 ∷ 69 ∷ 70 ∷ 71 ∷ 72 ∷ 73 ∷ 173
    ∷ 244 ∷ 166 ∷ 242 ∷ 243 ∷ 245 ∷ 229 ∷ 74 ∷ 75 ∷ 76 ∷ 77 ∷ 78 ∷ 79 ∷ 80 ∷ 81 ∷ 82 ∷ 185 ∷ 251
    ∷ 126 ∷ 249 ∷ 250 ∷ 255 ∷ 92 ∷ 247 ∷ 83 ∷ 84 ∷ 85 ∷ 86 ∷ 87 ∷ 88 ∷ 89 ∷ 90 ∷ 178 ∷ 212 ∷ 64
    ∷ 210 ∷ 211 ∷ 213 ∷ 48 ∷ 49 ∷ 50 ∷ 51 ∷ 52 ∷ 53 ∷ 54 ∷ 55 ∷ 56 ∷ 57 ∷ 179 ∷ 219 ∷ 220 ∷ 217
    ∷ 218 ∷ 159 ∷ []

-- iso_8859_1_to_ibm280
abbrev pub iso_8859_1_to_ibm280 : Bytes
iso_8859_1_to_ibm280 =
    0 ∷ 1 ∷ 2 ∷ 3 ∷ 55 ∷ 45 ∷ 46 ∷ 47 ∷ 22 ∷ 5 ∷ 37 ∷ 11 ∷ 12 ∷ 13 ∷ 14 ∷ 15 ∷ 16 ∷ 17 ∷ 18 ∷ 19
    ∷ 60 ∷ 61 ∷ 50 ∷ 38 ∷ 24 ∷ 25 ∷ 63 ∷ 39 ∷ 28 ∷ 29 ∷ 30 ∷ 31 ∷ 64 ∷ 79 ∷ 127 ∷ 177 ∷ 91 ∷ 108
    ∷ 80 ∷ 125 ∷ 77 ∷ 93 ∷ 92 ∷ 78 ∷ 107 ∷ 96 ∷ 75 ∷ 97 ∷ 240 ∷ 241 ∷ 242 ∷ 243 ∷ 244 ∷ 245 ∷ 246
    ∷ 247 ∷ 248 ∷ 249 ∷ 122 ∷ 94 ∷ 76 ∷ 126 ∷ 110 ∷ 111 ∷ 181 ∷ 193 ∷ 194 ∷ 195 ∷ 196 ∷ 197 ∷ 198
    ∷ 199 ∷ 200 ∷ 201 ∷ 209 ∷ 210 ∷ 211 ∷ 212 ∷ 213 ∷ 214 ∷ 215 ∷ 216 ∷ 217 ∷ 226 ∷ 227 ∷ 228 ∷ 229
    ∷ 230 ∷ 231 ∷ 232 ∷ 233 ∷ 144 ∷ 72 ∷ 81 ∷ 95 ∷ 109 ∷ 221 ∷ 129 ∷ 130 ∷ 131 ∷ 132 ∷ 133 ∷ 134
    ∷ 135 ∷ 136 ∷ 137 ∷ 145 ∷ 146 ∷ 147 ∷ 148 ∷ 149 ∷ 150 ∷ 151 ∷ 152 ∷ 153 ∷ 162 ∷ 163 ∷ 164 ∷ 165
    ∷ 166 ∷ 167 ∷ 168 ∷ 169 ∷ 68 ∷ 187 ∷ 84 ∷ 88 ∷ 7 ∷ 32 ∷ 33 ∷ 34 ∷ 35 ∷ 36 ∷ 21 ∷ 6 ∷ 23 ∷ 40
    ∷ 41 ∷ 42 ∷ 43 ∷ 44 ∷ 9 ∷ 10 ∷ 27 ∷ 48 ∷ 49 ∷ 26 ∷ 51 ∷ 52 ∷ 53 ∷ 54 ∷ 8 ∷ 56 ∷ 57 ∷ 58 ∷ 59 ∷ 4
    ∷ 20 ∷ 62 ∷ 255 ∷ 65 ∷ 170 ∷ 176 ∷ 123 ∷ 159 ∷ 178 ∷ 205 ∷ 124 ∷ 189 ∷ 180 ∷ 154 ∷ 138 ∷ 186
    ∷ 202 ∷ 175 ∷ 188 ∷ 74 ∷ 143 ∷ 234 ∷ 250 ∷ 190 ∷ 160 ∷ 182 ∷ 179 ∷ 157 ∷ 218 ∷ 155 ∷ 139 ∷ 183
    ∷ 184 ∷ 185 ∷ 171 ∷ 100 ∷ 101 ∷ 98 ∷ 102 ∷ 99 ∷ 103 ∷ 158 ∷ 104 ∷ 116 ∷ 113 ∷ 114 ∷ 115 ∷ 120
    ∷ 117 ∷ 118 ∷ 119 ∷ 172 ∷ 105 ∷ 237 ∷ 238 ∷ 235 ∷ 239 ∷ 236 ∷ 191 ∷ 128 ∷ 253 ∷ 254 ∷ 251 ∷ 252
    ∷ 173 ∷ 174 ∷ 89 ∷ 192 ∷ 69 ∷ 66 ∷ 70 ∷ 67 ∷ 71 ∷ 156 ∷ 224 ∷ 208 ∷ 90 ∷ 82 ∷ 83 ∷ 161 ∷ 85 ∷ 86
    ∷ 87 ∷ 140 ∷ 73 ∷ 106 ∷ 206 ∷ 203 ∷ 207 ∷ 204 ∷ 225 ∷ 112 ∷ 121 ∷ 222 ∷ 219 ∷ 220 ∷ 141 ∷ 142
    ∷ 223 ∷ []

-- ibm280_to_iso_8859_1
abbrev pub ibm280_to_iso_8859_1 : Bytes
ibm280_to_iso_8859_1 =
    0 ∷ 1 ∷ 2 ∷ 3 ∷ 156 ∷ 9 ∷ 134 ∷ 127 ∷ 151 ∷ 141 ∷ 142 ∷ 11 ∷ 12 ∷ 13 ∷ 14 ∷ 15 ∷ 16 ∷ 17 ∷ 18
    ∷ 19 ∷ 157 ∷ 133 ∷ 8 ∷ 135 ∷ 24 ∷ 25 ∷ 146 ∷ 143 ∷ 28 ∷ 29 ∷ 30 ∷ 31 ∷ 128 ∷ 129 ∷ 130 ∷ 131
    ∷ 132 ∷ 10 ∷ 23 ∷ 27 ∷ 136 ∷ 137 ∷ 138 ∷ 139 ∷ 140 ∷ 5 ∷ 6 ∷ 7 ∷ 144 ∷ 145 ∷ 22 ∷ 147 ∷ 148
    ∷ 149 ∷ 150 ∷ 4 ∷ 152 ∷ 153 ∷ 154 ∷ 155 ∷ 20 ∷ 21 ∷ 158 ∷ 26 ∷ 32 ∷ 160 ∷ 226 ∷ 228 ∷ 123 ∷ 225
    ∷ 227 ∷ 229 ∷ 92 ∷ 241 ∷ 176 ∷ 46 ∷ 60 ∷ 40 ∷ 43 ∷ 33 ∷ 38 ∷ 93 ∷ 234 ∷ 235 ∷ 125 ∷ 237 ∷ 238
    ∷ 239 ∷ 126 ∷ 223 ∷ 233 ∷ 36 ∷ 42 ∷ 41 ∷ 59 ∷ 94 ∷ 45 ∷ 47 ∷ 194 ∷ 196 ∷ 192 ∷ 193 ∷ 195 ∷ 197
    ∷ 199 ∷ 209 ∷ 242 ∷ 44 ∷ 37 ∷ 95 ∷ 62 ∷ 63 ∷ 248 ∷ 201 ∷ 202 ∷ 203 ∷ 200 ∷ 205 ∷ 206 ∷ 207 ∷ 204
    ∷ 249 ∷ 58 ∷ 163 ∷ 167 ∷ 39 ∷ 61 ∷ 34 ∷ 216 ∷ 97 ∷ 98 ∷ 99 ∷ 100 ∷ 101 ∷ 102 ∷ 103 ∷ 104 ∷ 105
    ∷ 171 ∷ 187 ∷ 240 ∷ 253 ∷ 254 ∷ 177 ∷ 91 ∷ 106 ∷ 107 ∷ 108 ∷ 109 ∷ 110 ∷ 111 ∷ 112 ∷ 113 ∷ 114
    ∷ 170 ∷ 186 ∷ 230 ∷ 184 ∷ 198 ∷ 164 ∷ 181 ∷ 236 ∷ 115 ∷ 116 ∷ 117 ∷ 118 ∷ 119 ∷ 120 ∷ 121 ∷ 122
    ∷ 161 ∷ 191 ∷ 208 ∷ 221 ∷ 222 ∷ 174 ∷ 162 ∷ 35 ∷ 165 ∷ 183 ∷ 169 ∷ 64 ∷ 182 ∷ 188 ∷ 189 ∷ 190
    ∷ 172 ∷ 124 ∷ 175 ∷ 168 ∷ 180 ∷ 215 ∷ 224 ∷ 65 ∷ 66 ∷ 67 ∷ 68 ∷ 69 ∷ 70 ∷ 71 ∷ 72 ∷ 73 ∷ 173
    ∷ 244 ∷ 246 ∷ 166 ∷ 243 ∷ 245 ∷ 232 ∷ 74 ∷ 75 ∷ 76 ∷ 77 ∷ 78 ∷ 79 ∷ 80 ∷ 81 ∷ 82 ∷ 185 ∷ 251
    ∷ 252 ∷ 96 ∷ 250 ∷ 255 ∷ 231 ∷ 247 ∷ 83 ∷ 84 ∷ 85 ∷ 86 ∷ 87 ∷ 88 ∷ 89 ∷ 90 ∷ 178 ∷ 212 ∷ 214
    ∷ 210 ∷ 211 ∷ 213 ∷ 48 ∷ 49 ∷ 50 ∷ 51 ∷ 52 ∷ 53 ∷ 54 ∷ 55 ∷ 56 ∷ 57 ∷ 179 ∷ 219 ∷ 220 ∷ 217
    ∷ 218 ∷ 159 ∷ []

-- iso_8859_1_to_ibm284
abbrev pub iso_8859_1_to_ibm284 : Bytes
iso_8859_1_to_ibm284 =
    0 ∷ 1 ∷ 2 ∷ 3 ∷ 55 ∷ 45 ∷ 46 ∷ 47 ∷ 22 ∷ 5 ∷ 37 ∷ 11 ∷ 12 ∷ 13 ∷ 14 ∷ 15 ∷ 16 ∷ 17 ∷ 18 ∷ 19
    ∷ 60 ∷ 61 ∷ 50 ∷ 38 ∷ 24 ∷ 25 ∷ 63 ∷ 39 ∷ 28 ∷ 29 ∷ 30 ∷ 31 ∷ 64 ∷ 187 ∷ 127 ∷ 105 ∷ 91 ∷ 108
    ∷ 80 ∷ 125 ∷ 77 ∷ 93 ∷ 92 ∷ 78 ∷ 107 ∷ 96 ∷ 75 ∷ 97 ∷ 240 ∷ 241 ∷ 242 ∷ 243 ∷ 244 ∷ 245 ∷ 246
    ∷ 247 ∷ 248 ∷ 249 ∷ 122 ∷ 94 ∷ 76 ∷ 126 ∷ 110 ∷ 111 ∷ 124 ∷ 193 ∷ 194 ∷ 195 ∷ 196 ∷ 197 ∷ 198
    ∷ 199 ∷ 200 ∷ 201 ∷ 209 ∷ 210 ∷ 211 ∷ 212 ∷ 213 ∷ 214 ∷ 215 ∷ 216 ∷ 217 ∷ 226 ∷ 227 ∷ 228 ∷ 229
    ∷ 230 ∷ 231 ∷ 232 ∷ 233 ∷ 74 ∷ 224 ∷ 90 ∷ 186 ∷ 109 ∷ 121 ∷ 129 ∷ 130 ∷ 131 ∷ 132 ∷ 133 ∷ 134
    ∷ 135 ∷ 136 ∷ 137 ∷ 145 ∷ 146 ∷ 147 ∷ 148 ∷ 149 ∷ 150 ∷ 151 ∷ 152 ∷ 153 ∷ 162 ∷ 163 ∷ 164 ∷ 165
    ∷ 166 ∷ 167 ∷ 168 ∷ 169 ∷ 192 ∷ 79 ∷ 208 ∷ 189 ∷ 7 ∷ 32 ∷ 33 ∷ 34 ∷ 35 ∷ 36 ∷ 21 ∷ 6 ∷ 23 ∷ 40
    ∷ 41 ∷ 42 ∷ 43 ∷ 44 ∷ 9 ∷ 10 ∷ 27 ∷ 48 ∷ 49 ∷ 26 ∷ 51 ∷ 52 ∷ 53 ∷ 54 ∷ 8 ∷ 56 ∷ 57 ∷ 58 ∷ 59 ∷ 4
    ∷ 20 ∷ 62 ∷ 255 ∷ 65 ∷ 170 ∷ 176 ∷ 177 ∷ 159 ∷ 178 ∷ 73 ∷ 181 ∷ 161 ∷ 180 ∷ 154 ∷ 138 ∷ 95 ∷ 202
    ∷ 175 ∷ 188 ∷ 144 ∷ 143 ∷ 234 ∷ 250 ∷ 190 ∷ 160 ∷ 182 ∷ 179 ∷ 157 ∷ 218 ∷ 155 ∷ 139 ∷ 183 ∷ 184
    ∷ 185 ∷ 171 ∷ 100 ∷ 101 ∷ 98 ∷ 102 ∷ 99 ∷ 103 ∷ 158 ∷ 104 ∷ 116 ∷ 113 ∷ 114 ∷ 115 ∷ 120 ∷ 117
    ∷ 118 ∷ 119 ∷ 172 ∷ 123 ∷ 237 ∷ 238 ∷ 235 ∷ 239 ∷ 236 ∷ 191 ∷ 128 ∷ 253 ∷ 254 ∷ 251 ∷ 252 ∷ 173
    ∷ 174 ∷ 89 ∷ 68 ∷ 69 ∷ 66 ∷ 70 ∷ 67 ∷ 71 ∷ 156 ∷ 72 ∷ 84 ∷ 81 ∷ 82 ∷ 83 ∷ 88 ∷ 85 ∷ 86 ∷ 87
    ∷ 140 ∷ 106 ∷ 205 ∷ 206 ∷ 203 ∷ 207 ∷ 204 ∷ 225 ∷ 112 ∷ 221 ∷ 222 ∷ 219 ∷ 220 ∷ 141 ∷ 142 ∷ 223
    ∷ []

-- ibm284_to_iso_8859_1
abbrev pub ibm284_to_iso_8859_1 : Bytes
ibm284_to_iso_8859_1 =
    0 ∷ 1 ∷ 2 ∷ 3 ∷ 156 ∷ 9 ∷ 134 ∷ 127 ∷ 151 ∷ 141 ∷ 142 ∷ 11 ∷ 12 ∷ 13 ∷ 14 ∷ 15 ∷ 16 ∷ 17 ∷ 18
    ∷ 19 ∷ 157 ∷ 133 ∷ 8 ∷ 135 ∷ 24 ∷ 25 ∷ 146 ∷ 143 ∷ 28 ∷ 29 ∷ 30 ∷ 31 ∷ 128 ∷ 129 ∷ 130 ∷ 131
    ∷ 132 ∷ 10 ∷ 23 ∷ 27 ∷ 136 ∷ 137 ∷ 138 ∷ 139 ∷ 140 ∷ 5 ∷ 6 ∷ 7 ∷ 144 ∷ 145 ∷ 22 ∷ 147 ∷ 148
    ∷ 149 ∷ 150 ∷ 4 ∷ 152 ∷ 153 ∷ 154 ∷ 155 ∷ 20 ∷ 21 ∷ 158 ∷ 26 ∷ 32 ∷ 160 ∷ 226 ∷ 228 ∷ 224 ∷ 225
    ∷ 227 ∷ 229 ∷ 231 ∷ 166 ∷ 91 ∷ 46 ∷ 60 ∷ 40 ∷ 43 ∷ 124 ∷ 38 ∷ 233 ∷ 234 ∷ 235 ∷ 232 ∷ 237 ∷ 238
    ∷ 239 ∷ 236 ∷ 223 ∷ 93 ∷ 36 ∷ 42 ∷ 41 ∷ 59 ∷ 172 ∷ 45 ∷ 47 ∷ 194 ∷ 196 ∷ 192 ∷ 193 ∷ 195 ∷ 197
    ∷ 199 ∷ 35 ∷ 241 ∷ 44 ∷ 37 ∷ 95 ∷ 62 ∷ 63 ∷ 248 ∷ 201 ∷ 202 ∷ 203 ∷ 200 ∷ 205 ∷ 206 ∷ 207 ∷ 204
    ∷ 96 ∷ 58 ∷ 209 ∷ 64 ∷ 39 ∷ 61 ∷ 34 ∷ 216 ∷ 97 ∷ 98 ∷ 99 ∷ 100 ∷ 101 ∷ 102 ∷ 103 ∷ 104 ∷ 105
    ∷ 171 ∷ 187 ∷ 240 ∷ 253 ∷ 254 ∷ 177 ∷ 176 ∷ 106 ∷ 107 ∷ 108 ∷ 109 ∷ 110 ∷ 111 ∷ 112 ∷ 113 ∷ 114
    ∷ 170 ∷ 186 ∷ 230 ∷ 184 ∷ 198 ∷ 164 ∷ 181 ∷ 168 ∷ 115 ∷ 116 ∷ 117 ∷ 118 ∷ 119 ∷ 120 ∷ 121 ∷ 122
    ∷ 161 ∷ 191 ∷ 208 ∷ 221 ∷ 222 ∷ 174 ∷ 162 ∷ 163 ∷ 165 ∷ 183 ∷ 169 ∷ 167 ∷ 182 ∷ 188 ∷ 189 ∷ 190
    ∷ 94 ∷ 33 ∷ 175 ∷ 126 ∷ 180 ∷ 215 ∷ 123 ∷ 65 ∷ 66 ∷ 67 ∷ 68 ∷ 69 ∷ 70 ∷ 71 ∷ 72 ∷ 73 ∷ 173 ∷ 244
    ∷ 246 ∷ 242 ∷ 243 ∷ 245 ∷ 125 ∷ 74 ∷ 75 ∷ 76 ∷ 77 ∷ 78 ∷ 79 ∷ 80 ∷ 81 ∷ 82 ∷ 185 ∷ 251 ∷ 252
    ∷ 249 ∷ 250 ∷ 255 ∷ 92 ∷ 247 ∷ 83 ∷ 84 ∷ 85 ∷ 86 ∷ 87 ∷ 88 ∷ 89 ∷ 90 ∷ 178 ∷ 212 ∷ 214 ∷ 210
    ∷ 211 ∷ 213 ∷ 48 ∷ 49 ∷ 50 ∷ 51 ∷ 52 ∷ 53 ∷ 54 ∷ 55 ∷ 56 ∷ 57 ∷ 179 ∷ 219 ∷ 220 ∷ 217 ∷ 218
    ∷ 159 ∷ []

-- iso_8859_1_to_ibm285
abbrev pub iso_8859_1_to_ibm285 : Bytes
iso_8859_1_to_ibm285 =
    0 ∷ 1 ∷ 2 ∷ 3 ∷ 55 ∷ 45 ∷ 46 ∷ 47 ∷ 22 ∷ 5 ∷ 37 ∷ 11 ∷ 12 ∷ 13 ∷ 14 ∷ 15 ∷ 16 ∷ 17 ∷ 18 ∷ 19
    ∷ 60 ∷ 61 ∷ 50 ∷ 38 ∷ 24 ∷ 25 ∷ 63 ∷ 39 ∷ 28 ∷ 29 ∷ 30 ∷ 31 ∷ 64 ∷ 90 ∷ 127 ∷ 123 ∷ 74 ∷ 108
    ∷ 80 ∷ 125 ∷ 77 ∷ 93 ∷ 92 ∷ 78 ∷ 107 ∷ 96 ∷ 75 ∷ 97 ∷ 240 ∷ 241 ∷ 242 ∷ 243 ∷ 244 ∷ 245 ∷ 246
    ∷ 247 ∷ 248 ∷ 249 ∷ 122 ∷ 94 ∷ 76 ∷ 126 ∷ 110 ∷ 111 ∷ 124 ∷ 193 ∷ 194 ∷ 195 ∷ 196 ∷ 197 ∷ 198
    ∷ 199 ∷ 200 ∷ 201 ∷ 209 ∷ 210 ∷ 211 ∷ 212 ∷ 213 ∷ 214 ∷ 215 ∷ 216 ∷ 217 ∷ 226 ∷ 227 ∷ 228 ∷ 229
    ∷ 230 ∷ 231 ∷ 232 ∷ 233 ∷ 177 ∷ 224 ∷ 187 ∷ 186 ∷ 109 ∷ 121 ∷ 129 ∷ 130 ∷ 131 ∷ 132 ∷ 133 ∷ 134
    ∷ 135 ∷ 136 ∷ 137 ∷ 145 ∷ 146 ∷ 147 ∷ 148 ∷ 149 ∷ 150 ∷ 151 ∷ 152 ∷ 153 ∷ 162 ∷ 163 ∷ 164 ∷ 165
    ∷ 166 ∷ 167 ∷ 168 ∷ 169 ∷ 192 ∷ 79 ∷ 208 ∷ 188 ∷ 7 ∷ 32 ∷ 33 ∷ 34 ∷ 35 ∷ 36 ∷ 21 ∷ 6 ∷ 23 ∷ 40
    ∷ 41 ∷ 42 ∷ 43 ∷ 44 ∷ 9 ∷ 10 ∷ 27 ∷ 48 ∷ 49 ∷ 26 ∷ 51 ∷ 52 ∷ 53 ∷ 54 ∷ 8 ∷ 56 ∷ 57 ∷ 58 ∷ 59 ∷ 4
    ∷ 20 ∷ 62 ∷ 255 ∷ 65 ∷ 170 ∷ 176 ∷ 91 ∷ 159 ∷ 178 ∷ 106 ∷ 181 ∷ 189 ∷ 180 ∷ 154 ∷ 138 ∷ 95 ∷ 202
    ∷ 175 ∷ 161 ∷ 144 ∷ 143 ∷ 234 ∷ 250 ∷ 190 ∷ 160 ∷ 182 ∷ 179 ∷ 157 ∷ 218 ∷ 155 ∷ 139 ∷ 183 ∷ 184
    ∷ 185 ∷ 171 ∷ 100 ∷ 101 ∷ 98 ∷ 102 ∷ 99 ∷ 103 ∷ 158 ∷ 104 ∷ 116 ∷ 113 ∷ 114 ∷ 115 ∷ 120 ∷ 117
    ∷ 118 ∷ 119 ∷ 172 ∷ 105 ∷ 237 ∷ 238 ∷ 235 ∷ 239 ∷ 236 ∷ 191 ∷ 128 ∷ 253 ∷ 254 ∷ 251 ∷ 252 ∷ 173
    ∷ 174 ∷ 89 ∷ 68 ∷ 69 ∷ 66 ∷ 70 ∷ 67 ∷ 71 ∷ 156 ∷ 72 ∷ 84 ∷ 81 ∷ 82 ∷ 83 ∷ 88 ∷ 85 ∷ 86 ∷ 87
    ∷ 140 ∷ 73 ∷ 205 ∷ 206 ∷ 203 ∷ 207 ∷ 204 ∷ 225 ∷ 112 ∷ 221 ∷ 222 ∷ 219 ∷ 220 ∷ 141 ∷ 142 ∷ 223
    ∷ []

-- ibm285_to_iso_8859_1
abbrev pub ibm285_to_iso_8859_1 : Bytes
ibm285_to_iso_8859_1 =
    0 ∷ 1 ∷ 2 ∷ 3 ∷ 156 ∷ 9 ∷ 134 ∷ 127 ∷ 151 ∷ 141 ∷ 142 ∷ 11 ∷ 12 ∷ 13 ∷ 14 ∷ 15 ∷ 16 ∷ 17 ∷ 18
    ∷ 19 ∷ 157 ∷ 133 ∷ 8 ∷ 135 ∷ 24 ∷ 25 ∷ 146 ∷ 143 ∷ 28 ∷ 29 ∷ 30 ∷ 31 ∷ 128 ∷ 129 ∷ 130 ∷ 131
    ∷ 132 ∷ 10 ∷ 23 ∷ 27 ∷ 136 ∷ 137 ∷ 138 ∷ 139 ∷ 140 ∷ 5 ∷ 6 ∷ 7 ∷ 144 ∷ 145 ∷ 22 ∷ 147 ∷ 148
    ∷ 149 ∷ 150 ∷ 4 ∷ 152 ∷ 153 ∷ 154 ∷ 155 ∷ 20 ∷ 21 ∷ 158 ∷ 26 ∷ 32 ∷ 160 ∷ 226 ∷ 228 ∷ 224 ∷ 225
    ∷ 227 ∷ 229 ∷ 231 ∷ 241 ∷ 36 ∷ 46 ∷ 60 ∷ 40 ∷ 43 ∷ 124 ∷ 38 ∷ 233 ∷ 234 ∷ 235 ∷ 232 ∷ 237 ∷ 238
    ∷ 239 ∷ 236 ∷ 223 ∷ 33 ∷ 163 ∷ 42 ∷ 41 ∷ 59 ∷ 172 ∷ 45 ∷ 47 ∷ 194 ∷ 196 ∷ 192 ∷ 193 ∷ 195 ∷ 197
    ∷ 199 ∷ 209 ∷ 166 ∷ 44 ∷ 37 ∷ 95 ∷ 62 ∷ 63 ∷ 248 ∷ 201 ∷ 202 ∷ 203 ∷ 200 ∷ 205 ∷ 206 ∷ 207 ∷ 204
    ∷ 96 ∷ 58 ∷ 35 ∷ 64 ∷ 39 ∷ 61 ∷ 34 ∷ 216 ∷ 97 ∷ 98 ∷ 99 ∷ 100 ∷ 101 ∷ 102 ∷ 103 ∷ 104 ∷ 105
    ∷ 171 ∷ 187 ∷ 240 ∷ 253 ∷ 254 ∷ 177 ∷ 176 ∷ 106 ∷ 107 ∷ 108 ∷ 109 ∷ 110 ∷ 111 ∷ 112 ∷ 113 ∷ 114
    ∷ 170 ∷ 186 ∷ 230 ∷ 184 ∷ 198 ∷ 164 ∷ 181 ∷ 175 ∷ 115 ∷ 116 ∷ 117 ∷ 118 ∷ 119 ∷ 120 ∷ 121 ∷ 122
    ∷ 161 ∷ 191 ∷ 208 ∷ 221 ∷ 222 ∷ 174 ∷ 162 ∷ 91 ∷ 165 ∷ 183 ∷ 169 ∷ 167 ∷ 182 ∷ 188 ∷ 189 ∷ 190
    ∷ 94 ∷ 93 ∷ 126 ∷ 168 ∷ 180 ∷ 215 ∷ 123 ∷ 65 ∷ 66 ∷ 67 ∷ 68 ∷ 69 ∷ 70 ∷ 71 ∷ 72 ∷ 73 ∷ 173 ∷ 244
    ∷ 246 ∷ 242 ∷ 243 ∷ 245 ∷ 125 ∷ 74 ∷ 75 ∷ 76 ∷ 77 ∷ 78 ∷ 79 ∷ 80 ∷ 81 ∷ 82 ∷ 185 ∷ 251 ∷ 252
    ∷ 249 ∷ 250 ∷ 255 ∷ 92 ∷ 247 ∷ 83 ∷ 84 ∷ 85 ∷ 86 ∷ 87 ∷ 88 ∷ 89 ∷ 90 ∷ 178 ∷ 212 ∷ 214 ∷ 210
    ∷ 211 ∷ 213 ∷ 48 ∷ 49 ∷ 50 ∷ 51 ∷ 52 ∷ 53 ∷ 54 ∷ 55 ∷ 56 ∷ 57 ∷ 179 ∷ 219 ∷ 220 ∷ 217 ∷ 218
    ∷ 159 ∷ []
